-- ===== src/Names.antt =====
-- source/Names.cpp: the name of an engine or a plugin from its file name. The regular expressions are
-- boost's, so regex_replace is a parameter: the text, the expression, the format.
use smartmet_server.Text.{Bytes, codes}

pub engine_name : (Bytes → Bytes → Bytes → Bytes) → Bytes → Bytes
engine_name regex_replace filename = regex_replace filename (codes ".*/(.*?)\\.so") (codes "\\1")

pub plugin_name : (Bytes → Bytes → Bytes → Bytes) → Bytes → Bytes
plugin_name regex_replace filename = engine_name regex_replace filename
