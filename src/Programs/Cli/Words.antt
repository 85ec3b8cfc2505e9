-- ===== src/Programs/Cli/Words.antt =====
-- The words of a command line (src/bin/cli.rs).
use mathlib.Core.List.{append-nil, append_assoc}
use diynamo.Base.{
  codes, join, bytes_eq, true, false, ok, List, [], ◌∷◌, ◌++◌, ◌≡◌, ◌≢◌, refl, sym, ap, subst, ◌∙◌,
  All, Bool-cases, inl, inr,
}
use diynamo.Base.Exec.{Exec, ◌>>=◌, lift}
use diynamo.Api.{Request, Response}
use diynamo.Client.{KvClient}
use diynamo.Client
use diynamo.Programs.Cli.{
  Chars, is_whitespace, encode, is_empty, trim_start, trim_end, trim, emit, words_from,
  split_whitespace, printed, run_put, run_words, run_command,
}

trim_start-words : (s : Chars) → words_from [] (trim_start s) ≡ words_from [] s
unfolding trim_start words_from emit
trim_start-words [] = refl
trim_start-words (c ∷ s) = elim (Bool-cases (is_whitespace c)) [
  | inl blank ↦ rw blank (trim_start-words s)
  | inr letter ↦ rw (letter, letter) refl
]

is_empty→nil : (s : Chars) → is_empty s ≡ true → s ≡ []
is_empty→nil [] h = refl
is_empty→nil (c ∷ s) h = cc

trim_end-words : (word s : Chars) → words_from word (trim_end s) ≡ words_from word s
unfolding trim_end words_from emit
trim_end-words word [] = refl
trim_end-words word (c ∷ s) = elim (Bool-cases (is_whitespace c)) [
  | inr letter ↦ rw (letter, letter) (trim_end-words (word ++ c ∷ []) s)
  | inl blank ↦ elim (Bool-cases (is_empty (trim_end s))) [
    | inl e ↦
        let none_left : [] ≡ words_from [] s =
          subst (λ (x : Chars). words_from [] x ≡ words_from [] s) (is_empty→nil (trim_end s) e)
            (trim_end-words [] s) in
        rw (blank, e, ← none_left) refl
    | inr e ↦ rw (blank, e, blank) (ap (emit word) (trim_end-words [] s))
  ]
]

-- Blanks around the line do not matter.
split_whitespace-trim : (s : Chars) → split_whitespace (trim s) ≡ split_whitespace s
unfolding split_whitespace trim
split_whitespace-trim s = trim_end-words [] (trim_start s) ∙ trim_start-words s

-- A word: some characters, and no blank among them.
abbrev pub IsWord : Chars → Type 0
IsWord s = (s ≢ []) × All (λ c. is_whitespace c ≡ false) s

words_from-append :
    (word s rest : Chars)
    → All (λ c. is_whitespace c ≡ false) s
    → words_from word (s ++ rest) ≡ words_from (word ++ s) rest
unfolding words_from
words_from-append word [] rest a = rw append-nil refl
words_from-append word (c ∷ s) rest a = rw a.0 (
    words_from-append (word ++ c ∷ []) s rest a.1
    ∙ ap (λ x. words_from x rest) (append_assoc word (c ∷ []) s))

emit-word : (word : Chars) (rest : List Chars) → word ≢ [] → emit word rest ≡ word ∷ rest
unfolding emit
emit-word [] rest h = absurd (h refl)
emit-word (c ∷ word) rest h = refl

nil-not-cons : (s : Chars) (words : List Chars) → split_whitespace [] ≢ s ∷ words
unfolding split_whitespace words_from emit
nil-not-cons s words e = cc

-- Words that are joined by blanks are read back one by one.
pub split_whitespace-join :
    (words : List Chars) → All IsWord words → split_whitespace (join (codes " ") words) ≡ words
unfolding split_whitespace words_from join is_whitespace
split_whitespace-join [] a = refl
split_whitespace-join (s ∷ []) a =
    ap (words_from []) (sym (append-nil s)) ∙ words_from-append [] s [] a.0.1 ∙ emit-word s [] a.0.0
split_whitespace-join (s ∷ t ∷ words) a =
    words_from-append [] s (codes " " ++ join (codes " ") (t ∷ words)) a.0.1
    ∙ emit-word s _ a.0.0
    ∙ ap (◌∷◌ s) (split_whitespace-join (t ∷ words) a.1)

join-nonempty :
    (s : Chars) (words : List Chars) → IsWord s → is_empty (join (codes " ") (s ∷ words)) ≡ false
unfolding join
join-nonempty [] words w = absurd (w.0 refl)
join-nonempty (c ∷ s) [] w = refl
join-nonempty (c ∷ s) (t ∷ words) w = refl

module _ {W : Type 0} (send : Request → Exec W Response) (client : KvClient) where
  -- A line of words runs the command of its words.
  run_command-words :
      (cmd : Chars) (parts : List Chars) (line : Chars) (w : W)
      → split_whitespace line ≡ cmd ∷ parts
      → run_command send client line w ≡ run_words send client (cmd ∷ parts) w
  unfolding run_command
  run_command-words cmd parts line w e = elim (Bool-cases (is_empty (trim line))) [
    | inr some_left ↦ rw (some_left, split_whitespace-trim line, e) refl
    | inl none_left ↦
        let split = split_whitespace-trim line ∙ e in
        absurd (nil-not-cons cmd parts (rw (is_empty→nil (trim line) none_left) at split))
  ]

  -- The command `put` with a key and one or more words makes exactly the request that stores at the
  -- key the words with one blank between any two, and prints that it is done if that succeeds; the
  -- words may be separated by any blanks, and blanks may stand around the line.
  pub run_command-put :
      (key s : Chars) (words : List Chars) (line : Chars) (w : W)
      → IsWord s
      → split_whitespace line ≡ codes "put" ∷ key ∷ s ∷ words
      → run_command send client line w
        ≡ (Client.put send client (encode key) (encode (join (codes " ") (s ∷ words))) >>= λ done.
              lift (ok (printed (codes "put ok"))))
            w
  unfolding run_words run_put bytes_eq
  run_command-put key s words line w v e =
      run_command-words (codes "put") (key ∷ s ∷ words) line w e ∙ rw (join-nonempty s words v) refl
