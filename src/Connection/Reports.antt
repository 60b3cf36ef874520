-- ===== src/Connection/Reports.antt =====
-- source/Connection.cpp: the texts of reportError and reportInfo. The time and the host's name are
-- parameters.
use smartmet_server.Text.{Bytes, codes}
use smartmet_server.Connection.Regular.{message}
use smartmet_server.Base.{◌++◌}

pub record Reporter (Q : Type 0) : Type 0 where
  pub local_time : Bytes
  pub client_ip : Q → Bytes
  pub host_name : Bytes → Bytes
  pub uri : Q → Bytes

module _ {Q : Type 0} (r : Reporter Q) where
  abbrev report_text : Bytes → Bytes → Q → Bytes
  report_text kind message q =
      let ip = r.client_ip q in
      r.local_time
      ++ (kind
          ++ (message
              ++ (codes "\n  - IP: "
                  ++ (ip
                      ++ (codes "\n  -HostName: "
                          ++ (r.host_name ip
                              ++ (codes "\n  - URI: " ++ (r.uri q ++ codes "\n"))))))))

  pub error_text : Bytes → Q → Bytes
  error_text message q = report_text (codes " Connection error: ") message q

  pub info_text : Bytes → Q → Bytes
  info_text message q = report_text (codes " Server info: ") message q
