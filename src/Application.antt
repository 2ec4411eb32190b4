-- ===== src/Application.antt =====
-- `Application` (Application.h, Application.cpp): the start of the program, the lines that are typed, and
-- its end. The command line, the locale and the file system are parameters. While it runs other
-- threads change the clients: each line comes with the client that `lock()` finds then, and the
-- table of the clients at the end is a function of that at the start.
pub mod Exits
pub mod Typed
pub mod Tests
use suda_gureum.Base.AssocMap.{find}
use suda_gureum.Base.Boost.{Boost, fold_case}
use suda_gureum.Base.Result.{
  Exception, system_error, runtime_error, std_exception, unknown, Result, ok, raised, endless,
}
use suda_gureum.Base.{
  ℕ, Bool, true, false, List, [], ◌∷◌, ◌++◌, Option, none, some, ◌⊎◌, inl, inr, if◌then◌else◌,
  is_empty, Bytes, codes,
}
use suda_gureum.Configure.{ConfigureMap}
use suda_gureum.Configure
use suda_gureum.Http.Processors.{Processors, register_http_resource_processors}
use suda_gureum.Http.Server.Setup.{Asio, Ssl, Environment, Built, construct}
use suda_gureum.Http.Server.{Server}
use suda_gureum.Irc.Client.Commands.{privmsg}
use suda_gureum.Irc.Client.Pool.{ClientPool, new_pool, close_all}
use suda_gureum.Irc.Client.State.{Client}
use suda_gureum.Log.{FileSystem, Sink, set_up_logger}
use suda_gureum.Threads.{Service, new_service, run, stop}
use suda_gureum.User.Servers.{ServerInfo, Server as UserServer}
use suda_gureum.User.Table.{Users, User, load, user}

-- What `boost::program_options` finds on the command line.
pub record Options : Type 0 where
  pub help : Bool
  pub config : Option Bytes
  pub daemon : Bool

pub record World : Type 1 where
  pub boost : Boost
  pub asio : Asio
  pub ssl : Ssl
  pub setup : Environment
  pub fs : FileSystem
  -- the exception of the locale, if it has one
  pub locale : Option Exception
  -- the message of the refusal, or the options
  pub command_line : Bytes ⊎ Options
  -- the bytes of the file at a path, if it can be read
  pub configure_file : Bytes → Option Bytes
  -- the lines typed, and the client that is there for each
  pub lines : List (Bytes × Option Client)
  -- `boost::locale::conv::to_utf`, which may throw
  pub to_utf : Bytes → Exception ⊎ Bytes
  -- the exception of the resolver for a server, if it has one
  pub resolver : ServerInfo → Option Exception
  -- whether one of the signals for which the pool waits is ever delivered
  pub signalled : Bool
  pub at_end : ClientPool → ClientPool

-- What the program has when it returns after its start.
pub record Session (asio : Asio) (ssl : Ssl) : Type 0 where
  pub built : Built asio ssl
  pub processors : Processors
  pub users : Users
  -- the threads of the pool, and those of the server, as `join` finds them
  pub pool : Service ClientPool
  pub server : Service Server
  -- the clients, each after what was typed was sent
  pub sent : List Client
  pub closed : List Client

-- What comes of the lines: the clients, each after what was typed was sent; a client that is gone; or
-- an exception.
pub data Typing : Type 0 where
  typed : List Client → Typing
  gone : Typing
  threw : Exception → Typing

-- The exit status, with what was written to `std::cerr` and to the log; or a null pointer that is
-- used, or a failed assertion; or `std::terminate`; or no end.
pub data Exit (asio : Asio) (ssl : Ssl) : Type 0 where
  success : Option (Session asio ssl) → Exit asio ssl
  failure : List Bytes → List Bytes → Exit asio ssl
  undefined : Exit asio ssl
  terminates : Exit asio ssl
  -- `pool.join()` does not return: the signals are waited for
  waits : Session asio ssl → Exit asio ssl
  hangs : Exit asio ssl

pub exception_error_message : Exception → Bytes
exception_error_message (system_error what) = codes "System error: " ++ what
exception_error_message (runtime_error what) = codes "Runtime error: " ++ what
exception_error_message (std_exception what) = codes "Exception: " ++ what
exception_error_message unknown = codes "Unexpected exception caught."

module _ (w : World) where
  abbrev pub behind : Client → Typing → Typing
  behind c (typed cs) = typed (c ∷ cs)
  behind c gone = gone
  behind c (threw e) = threw e

  -- The client is taken before the text is converted.
  abbrev pub converted : Exception ⊎ Bytes → Client → Typing → Typing
  converted (inl e) c rest = threw e
  converted (inr text) c rest = behind (privmsg (codes "#HNO3") text c) rest

  abbrev pub say : Bytes → Option Client → Typing → Typing
  say line none rest = gone
  say line (some c) rest = converted (w.to_utf line) c rest

  -- The loop over the lines, up to a blank one.
  pub send_lines : List (Bytes × Option Client) → Typing
  send_lines [] = typed []
  send_lines ((line, client) ∷ lines) =
      let rest = send_lines lines in
      if is_empty (w.boost.trim line) then typed [] else say (w.boost.trim line) client rest

  -- The end: an exception of the loop destroys threads that run, which ends the process before it is
  -- caught. Otherwise the clients are closed, and the server is stopped if the threads of the pool come to
  -- their end, which they do when nothing is waited for: behind a signal.
  abbrev pub session : Built w.asio w.ssl → Users → ClientPool → List Client → Session w.asio w.ssl
  session built users pool sent = record {
    built = built;
    processors = register_http_resource_processors [];
    users = users;
    pool = record (run 4 (new_service pool)) { state = (close_all (w.at_end pool)).1 };
    server =
        if w.signalled
        then stop (run 4 (new_service built.server))
        else run 4 (new_service built.server);
    sent = sent;
    closed = (close_all (w.at_end pool)).0;
  }

  abbrev pub ended :
      List Bytes → Built w.asio w.ssl → Users → ClientPool → Typing → Exit w.asio w.ssl
  ended notes built users pool gone = undefined
  ended notes built users pool (threw e) = terminates
  ended notes built users pool (typed sent) =
      if w.signalled
      then success (some (session built users pool sent))
      else waits (session built users pool sent)

  abbrev pub with_server :
      List Bytes → Built w.asio w.ssl → Users → ClientPool → Option UserServer → Exit w.asio w.ssl
  with_server notes built users pool none = undefined
  with_server notes built users pool (some server) =
      ended notes built users pool (send_lines w.lines)

  abbrev pub with_user :
      List Bytes → Built w.asio w.ssl → Users → ClientPool → Option User → Exit w.asio w.ssl
  with_user notes built users pool none = undefined
  with_user notes built users pool (some u) =
      with_server notes built users pool (find (fold_case w.boost) (codes "Ozinger") u.servers)

  abbrev pub with_users :
      List Bytes → Built w.asio w.ssl → Result (Option (Users × ClientPool)) → Exit w.asio w.ssl
  with_users notes built (raised e) = failure notes (exception_error_message e ∷ [])
  with_users notes built endless = hangs
  with_users notes built (ok none) = undefined
  with_users notes built (ok (some (users, pool))) =
      with_user notes built users pool (user (codes "SudaGureum") users)

  -- The second block, whose exceptions are logged; the notes are what stands on `std::cerr` by then.
  abbrev pub with_built : List Bytes → Result (Built w.asio w.ssl) → Exit w.asio w.ssl
  with_built notes (raised e) = failure notes (exception_error_message e ∷ [])
  with_built notes endless = hangs
  with_built notes (ok built) = with_users notes built (load w.boost w.resolver [] new_pool)

  pub after_logger : List Bytes → ConfigureMap → Exit w.asio w.ssl
  unfolding send_lines exception_error_message
  after_logger notes conf = with_built notes (construct w.asio w.ssl w.setup conf 44444 true)

  abbrev pub loaded : Option Bytes → ConfigureMap
  loaded none = []
  loaded (some file) = Configure.load w.boost file []

  -- The configuration; a file that cannot be read is passed over.
  pub configuration : Option Bytes → ConfigureMap
  configuration none = []
  configuration (some path) = loaded (w.configure_file path)

  abbrev pub passed_over : Option Bytes → List Bytes
  passed_over none = codes "Failed to load the configure file; ignore." ∷ []
  passed_over (some file) = []

  -- What is written on `std::cerr` about the configuration.
  abbrev pub notes_on : Option Bytes → List Bytes
  notes_on none = []
  notes_on (some path) = passed_over (w.configure_file path)

  abbrev pub with_logger : List Bytes → ConfigureMap → Result (List Sink) → Exit w.asio w.ssl
  with_logger notes conf (raised e) = failure (notes ++ exception_error_message e ∷ []) []
  with_logger notes conf endless = hangs
  with_logger notes conf (ok sinks) = after_logger notes conf

  abbrev pub with_options : Options → Exit w.asio w.ssl
  with_options options =
      if options.help
      then success none
      else with_logger (notes_on options.config) (configuration options.config)
          (set_up_logger w.fs options.daemon (configuration options.config))

  abbrev pub with_command_line : Bytes ⊎ Options → Exit w.asio w.ssl
  with_command_line (inl what) = failure (what ∷ []) []
  with_command_line (inr options) = with_options options

  abbrev pub with_locale : Option Exception → Exit w.asio w.ssl
  with_locale (some e) = failure (exception_error_message e ∷ []) []
  with_locale none = with_command_line w.command_line

  -- `run`
  pub run_application : Exit w.asio w.ssl
  unfolding after_logger configuration
  run_application = with_locale w.locale
