-- ===== src/Application/Exits.antt =====
-- When the program fails to start, and what it writes then.
use suda_gureum.Base.{
  ◌≡◌, refl, ap, ◌∙◌, true, false, inl, inr, List, [], ◌∷◌, ◌++◌, none, some, Bytes, map,
  bytes_eq_iff,
}
use suda_gureum.Application.{
  Options, World, Exit, failure, exception_error_message, ended, with_server, with_user, with_users,
  after_logger, configuration, notes_on, with_command_line, with_locale, run_application,
  send_lines,
}
use suda_gureum.Base.AssocMap.{find}
use suda_gureum.Base.Boost.{fold_case}
use suda_gureum.Base.Result.{Exception, Result, ok, raised}
use suda_gureum.Base.{codes}
use suda_gureum.Configure.{ConfigureMap}
use suda_gureum.Http.Server.Setup.{Built, construct}
use suda_gureum.Irc.Client.Pool.{ClientPool, new_pool}
use suda_gureum.Log.{Sink, set_up_logger}
use suda_gureum.User.Table.{Users, load, user, user-nil, user-load, loaded_servers, ozinger}

-- The options are read, help is not asked for, and the logger is set up.
pub record Ready (w : World) (conf : ConfigureMap) : Type 0 where
  pub locale : w.locale ≡ none
  pub options : Options
  pub understood : w.command_line ≡ inr options
  pub starts : options.help ≡ false
  pub configured : configuration w options.config ≡ conf
  pub sinks : List Sink
  pub logs : set_up_logger w.fs options.daemon conf ≡ ok sinks

-- Why the program does not start, with the lines on `std::cerr` and in the log.
pub data Fails (w : World) (cerr log : List Bytes) : Type 0 where
  no_locale :
      (e : Exception)
      → w.locale ≡ some e
      → cerr ≡ exception_error_message e ∷ []
      → log ≡ []
      → Fails w cerr log
  not_understood :
      (what : Bytes)
      → w.locale ≡ none
      → w.command_line ≡ inl what
      → cerr ≡ what ∷ []
      → log ≡ []
      → Fails w cerr log
  no_logger :
      (options : Options) (e : Exception)
      → w.locale ≡ none
      → w.command_line ≡ inr options
      → options.help ≡ false
      → set_up_logger w.fs options.daemon (configuration w options.config) ≡ raised e
      → cerr ≡ notes_on w options.config ++ exception_error_message e ∷ []
      → log ≡ []
      → Fails w cerr log
  no_server :
      (conf : ConfigureMap) (e : Exception) (r : Ready w conf)
      → construct w.asio w.ssl w.setup conf 44444 true ≡ raised e
      → cerr ≡ notes_on w r.options.config
      → log ≡ exception_error_message e ∷ []
      → Fails w cerr log
  no_host :
      (conf : ConfigureMap) (built : Built w.asio w.ssl) (e : Exception) (r : Ready w conf)
      → construct w.asio w.ssl w.setup conf 44444 true ≡ ok built
      → w.resolver ozinger ≡ some e
      → cerr ≡ notes_on w r.options.config
      → log ≡ exception_error_message e ∷ []
      → Fails w cerr log

module _ (w : World) where
  pub run_application-Ready :
      (conf : ConfigureMap) (r : Ready w conf)
      → run_application w ≡ after_logger w (notes_on w r.options.config) conf
  unfolding run_application
  run_application-Ready conf r =
      ap (with_locale w) r.locale
      ∙ ap (with_command_line w) r.understood
      ∙ rw (r.starts, r.configured, r.logs)

  abbrev IsFailure : Exit w.asio w.ssl → Type 0
  IsFailure (failure cerr log) = Unit
  IsFailure _ = ⊥

  -- With the host of the one server found, the user and its server are there.
  pub has_server :
      find (fold_case w.boost) (codes "Ozinger") (loaded_servers w.boost new_pool)
      ≡ some (record { info = ozinger; irc_client = some 1 })
  unfolding find
  has_server =
      rw
        (bytes_eq_iff (map w.boost.to_upper (codes "Ozinger"))
          (map w.boost.to_upper (codes "Ozinger"))).1
        refl

  pub with_users-ended :
      (notes : List Bytes) (built : Built w.asio w.ssl)
      → w.resolver ozinger ≡ none
      → (users : Users) × (pool : ClientPool) × (user (codes "SudaGureum") users
          ≡ some
              (record { user_id = codes "SudaGureum"; servers = loaded_servers w.boost new_pool }))
        × (with_users w notes built (load w.boost w.resolver [] new_pool)
            ≡ ended w notes built users pool (send_lines w w.lines))
        × (load w.boost w.resolver [] new_pool ≡ ok (some (users, pool)))
  with_users-ended notes built resolved =
      let (users, pool, loads, found) =
        user-load w.boost w.resolver [] new_pool resolved (user-nil (codes "SudaGureum")) in
      (
        users,
        pool,
        found,
        ap (with_users w notes built) loads
            ∙ ap (with_user w notes built users pool) found
            ∙ ap (with_server w notes built users pool) has_server,
        loads,
      )
