-- ===== src/LoadTest/Requests.antt =====
-- loadtest/Tester.cpp: readReqFile, performRequest, handleSignal and main. random_shuffle, the sockets
-- and the clock are parameters.
use smartmet_server.Base.{
  true, Option, Bool, ℕ, List, not, map, [], some, none, ◌++◌, ◌==◌, ◌-◌, if◌then◌else◌,
}
use smartmet_server.Text.{Bytes, codes}
use smartmet_server.LoadTest.Status.{parse_status}
use smartmet_server.Server.MemoryStatus.{get_lines}

pub record Request : Type 0 where
  pub host_name : Bytes
  pub port : ℕ
  pub uri : Bytes

pub record Result : Type 0 where
  pub time : ℕ
  pub uri : Bytes
  -- in milliseconds
  pub duration : ℕ
  pub status : Bytes
  pub response : Bytes

-- "At least spaces must be encoded".
abbrev pub encode_spaces : Bytes → Bytes
encode_spaces = map (λ c. if c == 32 then b'+' else c)

-- The requests of the file, one for each line; none if the file cannot be opened.
unfoldable pub read_req_file :
    (List Request → List Request) → Bytes → ℕ → Option Bytes → List Request
read_req_file shuffle host port none = []
read_req_file shuffle host port (some content) = shuffle (
    map (λ line. record { host_name = host; port = port; uri = encode_spaces line })
      (get_lines content))

-- The text that is sent for a request.
abbrev pub request_text : Bytes → Bytes
request_text uri = codes "GET " ++ (uri ++ codes " HTTP/1.0\r\n\r\n")

pub record Network : Type 0 where
  -- resolve and connect, which throw where they fail
  pub connects : Request → Bool
  -- whether the write succeeds, given the bytes
  pub sends : Request → Bytes → Bool
  -- the at most 512 bytes that the read delivers
  pub answer : Request → Bytes
  pub before : ℕ
  pub after : ℕ

-- A worker's task: the result that is added, if one is. A failed connection ends in an exception, and
-- a failed write in a return.
unfoldable pub perform_request : Network → Request → Option Result
perform_request net q =
    if not (net.connects q)
    then none
    else if not (net.sends q (request_text q.uri))
    then none
    else let (code, body) = parse_status (net.answer q) in
      some (record {
        time = net.before;
        uri = q.uri;
        duration = net.after - net.before;
        status = code;
        response = body;
      })

pub data TesterSignal : Type 0 where
  sigquit sigalrm : TesterSignal

pub record Interrupted : Type 0 where
  pub io_stopped : Bool
  pub pool_shut_down : Bool
  pub print_results : Bool

unfoldable pub handle_tester_signal : TesterSignal → Interrupted → Interrupted
handle_tester_signal sigquit s = record s {
  io_stopped = true;
  pool_shut_down = true;
  print_results = true;
}
handle_tester_signal sigalrm s = record s { io_stopped = true; pool_shut_down = true }
