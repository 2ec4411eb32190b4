-- ===== src/Irc/Parser/Words.antt =====
-- The loop of `parseMessage` over the words of a line, on lines of the form that a message has.
use mathlib.Core.List.{reverse, reverse-cons}
use suda_gureum.Base.{
  ◌+◌, ◌≤◌, ◌≡◌, refl, ◌≢◌, List, [], ◌∷◌, ◌++◌, append_assoc, append-nil, Option, length, arith,
  Bytes, Lacks, split_on, split_on-cons, split_on-append, Lacks→avoids,
}
use suda_gureum.Irc.Message.{encode_params}
use suda_gureum.Irc.Parser.{
  Line, WordState, in_param, in_trailing, word, words, is_space, extend_back,
}

abbrev pub line_at : WordState → Bytes → Bytes → List Bytes → Line
line_at st prefix command params = record {
  state = st;
  prefix = prefix;
  command = command;
  params = params;
}

-- A parameter that can stand before another one.
abbrev pub IsMiddle : Bytes → Type 0
IsMiddle [] = ⊥
IsMiddle (c ∷ cs) = (c ≢ b':') × Lacks b' ' (c ∷ cs)

-- All parameters but the last one are middle parameters.
abbrev pub AreMiddle : Bytes → List Bytes → Type 0
AreMiddle p [] = Unit
AreMiddle p (q ∷ qs) = IsMiddle p × AreMiddle q qs

-- The text of the parameters behind the first space.
abbrev pub params_text : Bytes → List Bytes → Bytes
params_text p [] = b':' ∷ p
params_text p (q ∷ qs) = p ++ b' ' ∷ params_text q qs

pub encode_params-text :
    (p : Bytes) (ps : List Bytes) → encode_params p ps ≡ b' ' ∷ params_text p ps
encode_params-text p [] = refl
encode_params-text p (q ∷ qs) = rw (encode_params-text q qs)

module _ (prefix command : Bytes) where
  word-in_trailing :
      (w : Bytes) (ps : List Bytes)
      → word (line_at in_trailing prefix command ps) w
        ≡ Option.some (line_at in_trailing prefix command (extend_back w ps))
  unfolding word
  word-in_trailing [] ps = refl
  word-in_trailing (c ∷ w) ps = refl

  -- The words of a trailing parameter, the first of them read already.
  abbrev after_first : Bytes → List Bytes → List Bytes → Option Line
  after_first p ps [] = Option.none
  after_first p ps (w ∷ ws) = words ws (line_at in_trailing prefix command ((p ++ w) ∷ ps))

  words-trailing :
      (t p : Bytes) (ps : List Bytes)
      → after_first p ps (split_on is_space t)
        ≡ Option.some (line_at in_trailing prefix command ((p ++ t) ∷ ps))
  unfolding words
  words-trailing [] p ps = refl
  words-trailing (c ∷ t) p ps =
      let (w, ws, e) = split_on-cons is_space t in
      ground (
        arith,
        rw e at (words-trailing t (p ++ b' ' ∷ []) ps),
        rw e at (words-trailing t (p ++ c ∷ []) ps),
        e,
        word-in_trailing w ((p ++ []) ∷ ps),
        append-nil p,
        append_assoc p (b' ' ∷ []) w,
        append_assoc p (b' ' ∷ []) t,
        append_assoc p (c ∷ []) w,
        append_assoc p (c ∷ []) t,
      )

  -- The words of a parameter text, read after the command.
  pub words-params_text :
      (p : Bytes) (ps before : List Bytes)
      → AreMiddle p ps
      → length before + length (p ∷ ps) ≤ 15
      → words (split_on is_space (params_text p ps)) (line_at in_param prefix command before)
        ≡ Option.some (line_at in_trailing prefix command (reverse (p ∷ ps) ++ before))
  unfolding words word
  words-params_text p [] before h fits =
      let (w, ws, e) = split_on-cons is_space p in
      ground (arith, e, rw e at (words-trailing p [] before))
  words-params_text (c ∷ p) (q ∷ qs) before ((hc, hp), h) fits =
      rw
        (split_on-append is_space (c ∷ p) b' ' (params_text q qs) (Lacks→avoids b' ' (c ∷ p) hp)
          refl)
        (ground (
          arith,
          words-params_text q qs ((c ∷ p) ∷ before) h,
          reverse-cons (c ∷ p) (q ∷ qs),
          append_assoc (reverse (q ∷ qs)) ((c ∷ p) ∷ []) before,
        ))
  words-params_text [] (q ∷ qs) before (hp, h) fits = absurd hp
