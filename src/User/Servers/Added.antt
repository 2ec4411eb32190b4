-- ===== src/User/Servers/Added.antt =====
-- The constructor takes over every server.
use suda_gureum.Base.AssocMap.{AssocMap, same, find, emplace, erase}
use suda_gureum.Base.Boost.{Boost, fold_case}
use suda_gureum.Base.{
  ◌≡◌, refl, sym, ap, ◌∙◌, false, List, [], ◌∷◌, ◌++◌, map, append_assoc, append-nil, none, some,
  All, Bytes, bytes_eq_iff, is_empty, arith,
}
use suda_gureum.User.Servers.{
  ServerInfo, Server, ServerSet, no_server, add_server, then_added, add_servers,
}

module _ {V : Type 0} (norm : Bytes → Bytes) where
  emplace-absent :
      (k : Bytes) (v : V) (m : AssocMap V)
      → find norm k m ≡ none
      → emplace norm k v m ≡ m ++ (k, v) ∷ []
  unfolding find emplace
  emplace-absent k v [] h = refl
  emplace-absent k v ((j, w) ∷ m) h = ground (arith, h, emplace-absent k v m)

  find-last :
      (k : Bytes) (v : V) (m : AssocMap V)
      → find norm k m ≡ none
      → find norm k (m ++ (k, v) ∷ []) ≡ some v
  unfolding find
  find-last k v [] h = ground (arith, bytes_eq_iff (norm k) (norm k))
  find-last k v ((j, w) ∷ m) h = ground (arith, h, find-last k v m)

  erase-last :
      (k : Bytes) (v : V) (m : AssocMap V)
      → find norm k m ≡ none
      → erase norm k (m ++ (k, v) ∷ []) ≡ m
  unfolding find erase
  erase-last k v [] h = ground (arith, bytes_eq_iff (norm k) (norm k))
  erase-last k v ((j, w) ∷ m) h = ground (arith, h, erase-last k v m)

  find-other :
      (k j : Bytes) (v : V) (m : AssocMap V)
      → find norm k m ≡ none
      → same norm j k ≡ false
      → find norm k (m ++ (j, v) ∷ []) ≡ none
  unfolding find
  find-other k j v [] h differs = ground (arith, differs)
  find-other k j v ((i, w) ∷ m) h differs = ground (arith, h, find-other k j v m)

module _ (boost : Boost) where
  abbrev pub server_of : ServerInfo → Bytes × Server
  server_of info = (info.name, record { info = info; irc_client = none })

  -- Names that are not empty and differ also in another case of letters.
  abbrev pub AreDistinct : List ServerInfo → Type 0
  AreDistinct [] = Unit
  AreDistinct (info ∷ infos) =
      (is_empty info.name ≡ false)
      × (All (λ other. same (fold_case boost) info.name other.name ≡ false) infos
          × AreDistinct infos)

  abbrev IsAbsent : ServerSet → ServerInfo → Type 0
  IsAbsent servers info = find (fold_case boost) info.name servers ≡ none

  add_server-absent :
      (info : ServerInfo) (servers : ServerSet)
      → find (fold_case boost) [] servers ≡ none
      → IsAbsent servers info
      → add_server boost info servers ≡ some (servers ++ server_of info ∷ [])
  unfolding add_server
  add_server-absent info servers none_empty absent = ground (
    arith,
    emplace-absent (fold_case boost) [] no_server servers none_empty,
    find-last (fold_case boost) [] no_server servers none_empty,
    erase-last (fold_case boost) [] no_server servers none_empty,
    absent,
    emplace-absent (fold_case boost) info.name (server_of info).1 servers absent,
  )

  still-IsAbsent :
      (info : ServerInfo) (servers : ServerSet) (infos : List ServerInfo)
      → All (IsAbsent servers) infos
      → All (λ other. same (fold_case boost) info.name other.name ≡ false) infos
      → All (IsAbsent (servers ++ server_of info ∷ [])) infos
  still-IsAbsent info servers [] h differs = tt
  still-IsAbsent info servers (other ∷ infos) (ho, h) (differ, differs) = (
    find-other (fold_case boost) other.name info.name (server_of info).1 servers ho differ,
    still-IsAbsent info servers infos h differs,
  )

  filled-differs : (name : Bytes) → is_empty name ≡ false → same (fold_case boost) name [] ≡ false
  filled-differs [] h = absurd (ground (arith, h))
  filled-differs (c ∷ cs) h = refl

  add_servers-from :
      (infos : List ServerInfo) (servers : ServerSet)
      → AreDistinct infos
      → find (fold_case boost) [] servers ≡ none
      → All (IsAbsent servers) infos
      → add_servers boost infos servers ≡ some (servers ++ map server_of infos)
  unfolding add_servers
  add_servers-from [] servers distinct none_empty absent = ap some (sym (append-nil servers))
  add_servers-from (info ∷ infos) servers (filled, (differ, distinct)) none_empty (absent, others) =
      ap (then_added boost (add_servers boost infos))
        (add_server-absent info servers none_empty absent)
      ∙ add_servers-from infos (servers ++ server_of info ∷ []) distinct
          (find-other (fold_case boost) [] info.name (server_of info).1 servers none_empty
            (filled-differs info.name filled))
          (still-IsAbsent info servers infos others differ)
      ∙ ap some (append_assoc servers (server_of info ∷ []) (map server_of infos))

  none-IsAbsent : (infos : List ServerInfo) → All (IsAbsent []) infos
  unfolding find
  none-IsAbsent [] = tt
  none-IsAbsent (info ∷ infos) = (refl, none-IsAbsent infos)

  -- Servers with names that are not empty and differ also in another case of letters: no assertion
  -- fails, and the user has each of them, under its name and with no client yet, and no others.
  pub add_servers-map :
      (infos : List ServerInfo)
      → AreDistinct infos
      → add_servers boost infos [] ≡ some (map server_of infos)
  unfolding find
  add_servers-map infos distinct = add_servers-from infos [] distinct refl (none-IsAbsent infos)
