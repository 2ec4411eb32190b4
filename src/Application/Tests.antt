-- ===== src/Application/Tests.antt =====
-- The program at concrete input: a start that succeeds, and one with a command line that is refused.
use suda_gureum.Application.Typed.{present}
use suda_gureum.Application.{World}
use suda_gureum.Base.Boost.{ascii_boost}
use suda_gureum.Base.{inl, inr, true, false, List, [], ◌∷◌, ◌++◌, map, none, some, Bytes, codes}
use suda_gureum.Http.Server.Setup.Tests.{no_v6, plain_ssl, two_files}
use suda_gureum.Irc.Client.State.{Client, new_client}
use suda_gureum.Log.{FileSystem}

abbrev writable : FileSystem
writable = record {
  create_directories = λ path. (true, none);
  append_path = λ path name. path ++ b'/' ∷ name;
  refuses_file = λ path. none;
}

abbrev file : Bytes
file =
    codes "ssl_certificate_file=c"
    ++ (b'\n' ∷ (codes "ssl_private_key_file=k" ++ (b'\n' ∷ codes "ssl_certificate_password=pw")))

-- A line, a blank one, and one that is not read.
abbrev typed : List (Bytes × Client)
typed = (codes " hi ", new_client 1) ∷ (codes " ", new_client 1) ∷ (codes "bye", new_client 1) ∷ []

abbrev world : World
world = record {
  boost = ascii_boost;
  asio = no_v6;
  ssl = plain_ssl;
  setup = two_files;
  fs = writable;
  locale = none;
  command_line = inr (record { help = false; config = some (codes "f"); daemon = false });
  configure_file = λ path. some file;
  lines = map present typed;
  to_utf = λ s. inr s;
  resolver = λ info. none;
  signalled = true;
  at_end = λ pool. pool;
}

abbrev refused : World
refused = record world { command_line = inl (codes "unrecognised option '--x'") }
