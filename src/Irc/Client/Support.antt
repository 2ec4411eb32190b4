-- ===== src/Irc/Client/Support.antt =====
-- The branch of `procMessage` for RPL_ISUPPORT: the loop over the tokens between the first and the
-- last parameter. `name` and `value` live across the rounds.
use suda_gureum.Base.{
  ℕ, Bool, false, ◌||◌, List, [], ◌∷◌, ◌++◌, Option, none, some, ◌==◌, leb, if◌then◌else◌, length,
  Bytes, bytes_eq, codes,
}
use suda_gureum.Base.AssocMap.{emplace}
use suda_gureum.Base.Boost.{Boost}
use suda_gureum.Irc.Client.State.{
  Client, ChannelModes, NicknamePrefixMap, Handled, returned, undefined, fold_case,
}

-- `std::sort` on the characters of a string.
abbrev pub insert_sorted : ℕ → Bytes → Bytes
insert_sorted b [] = b ∷ []
insert_sorted b (c ∷ cs) = if leb b c then b ∷ c ∷ cs else c ∷ insert_sorted b cs

abbrev pub sort : Bytes → Bytes
sort [] = []
sort (b ∷ bs) = insert_sorted b (sort bs)

-- The part before the first `=` and the part behind it.
abbrev pub split_equal : Bytes → Option (Bytes × Bytes)
split_equal [] = none
split_equal (c ∷ cs) =
    if c == b'='
    then some ([], cs)
    else elim (split_equal cs) [ none ↦ none | some (n, v) ↦ some (c ∷ n, v) ]

abbrev pub has_pair : ℕ → ℕ → NicknamePrefixMap → Bool
has_pair key letter [] = false
has_pair key letter ((k, v) ∷ m) = (k == key) || (v == letter) || has_pair key letter m

-- Both members are unique keys: a pair with a known character or a known letter is not taken.
abbrev pub insert_pair : ℕ → ℕ → NicknamePrefixMap → NicknamePrefixMap
insert_pair key letter m = if has_pair key letter m then m else m ++ (key, letter) ∷ []

pub insert_pairs : Bytes → Bytes → NicknamePrefixMap → NicknamePrefixMap
insert_pairs (letter ∷ letters) (key ∷ keys) m =
    insert_pairs letters keys (insert_pair key letter m)
insert_pairs _ _ m = m

-- The result of the split on commas, if there are four pieces.
pub channel_modes_of : List Bytes → ChannelModes → ChannelModes
channel_modes_of (a ∷ b ∷ c ∷ d ∷ []) modes = record {
  mode_a = sort a;
  mode_b = sort b;
  mode_c = sort c;
  mode_d = sort d;
}
channel_modes_of _ modes = modes

pub prefix_map_of : Option (Bytes × Bytes) → NicknamePrefixMap → NicknamePrefixMap
unfolding insert_pairs
prefix_map_of none m = m
prefix_map_of (some (letters, keys)) m =
    if length letters == length keys then insert_pairs letters keys [] else m

module _ (boost : Boost) where
  -- The tests of the name, on the name and the value as the token left them.
  pub option_set : Bytes → Bytes → Client → Client
  unfolding channel_modes_of prefix_map_of
  option_set name value c =
      if bytes_eq name (codes "CHANTYPES")
      then record c { channel_types = sort value }
      else if bytes_eq name (codes "CHANMODES")
      then record c {
        channel_modes = channel_modes_of (boost.split (λ b. b == b',') value) c.channel_modes;
      }
      else if bytes_eq name (codes "PREFIX")
      then record c {
        nickname_prefix_map = prefix_map_of (boost.match_prefix value) c.nickname_prefix_map;
      }
      else c

  abbrev pub store_option : Bytes → Bytes → Client → Client
  store_option name value c = record c {
    server_options = emplace (fold_case boost) name value c.server_options;
  }

  -- A token with no `=` keeps the name of the token before it.
  abbrev pub token_of : Bytes → Bytes → Bytes × Bytes
  token_of name token = elim (split_equal token) [ none ↦ (name, []) | some p ↦ p ]

  pub token_round : Bytes → Bytes × Bytes → Client → Client
  unfolding option_set
  token_round old (name, value) c = option_set name value (store_option name value c)

  pub tokens_loop : Bytes → List Bytes → Client → Client
  unfolding token_round
  tokens_loop name [] c = c
  tokens_loop name (token ∷ tokens) c =
      let p : Bytes × Bytes = token_of name token in tokens_loop p.0 tokens (token_round name p c)

abbrev pub all_but_last : Bytes → List Bytes → List Bytes
all_but_last p [] = []
all_but_last p (q ∷ qs) = p ∷ all_but_last q qs

module _ (boost : Boost) where
  -- With fewer than two parameters the iterators run past each other.
  unfoldable pub proc_isupport : List Bytes → Client → Handled
  unfolding tokens_loop
  proc_isupport (me ∷ token ∷ tokens) c =
      returned (tokens_loop boost [] (all_but_last token tokens) c)
  proc_isupport _ c = undefined
