-- ===== src/Programs/Cli.antt =====
-- src/bin/cli.rs: the commands of the interactive client. A line is the list of its characters.
pub mod Words
use diynamo.Base.{
  ℕ, ◌+◌, ◌/◌, ◌%◌, Bytes, codes, join, bytes_eq, Bool, true, false, ◌&&◌, ◌||◌, ◌==◌, ltb, leb,
  Error, message, Result, ok, err, List, [], ◌∷◌, ◌++◌, if◌then◌else◌,
}
use diynamo.Base.Exec.{Exec, ◌>>=◌, lift}
use diynamo.Api.{Request, Response}
use diynamo.Client.{KvClient}
use diynamo.Client

-- A `str` by characters, each its Unicode code point.
abbrev pub Chars : Type 0
Chars = List ℕ

-- `char::is_whitespace`: Unicode's property White_Space.
unfoldable pub is_whitespace : ℕ → Bool
is_whitespace c =
    (leb 0x9 c && leb c 0xd)
    || (c == 0x20)
    || (c == 0x85)
    || (c == 0xa0)
    || (c == 0x1680)
    || (leb 0x2000 c && leb c 0x200a)
    || (c == 0x2028)
    || (c == 0x2029)
    || (c == 0x202f)
    || (c == 0x205f)
    || (c == 0x3000)

-- `char::encode_utf8`
encode_char : ℕ → Bytes
encode_char c =
    if ltb c 0x80
    then c ∷ []
    else if ltb c 0x800
    then (0xc0 + c / 64) ∷ (0x80 + c % 64) ∷ []
    else if ltb c 0x10000
    then (0xe0 + c / 4096) ∷ (0x80 + c / 64 % 64) ∷ (0x80 + c % 64) ∷ []
    else (0xf0 + c / 262144) ∷ (0x80 + c / 4096 % 64) ∷ (0x80 + c / 64 % 64) ∷ (0x80 + c % 64) ∷ []

unfoldable pub encode : Chars → Bytes
unfolding encode_char
encode [] = []
encode (c ∷ s) = encode_char c ++ encode s

abbrev pub is_empty : Chars → Bool
is_empty [] = true
is_empty (c ∷ s) = false

-- `str::trim`
unfoldable pub trim_start : Chars → Chars
trim_start [] = []
trim_start (c ∷ s) = if is_whitespace c then trim_start s else c ∷ s

unfoldable pub trim_end : Chars → Chars
trim_end [] = []
trim_end (c ∷ s) =
    let rest = trim_end s in if is_whitespace c && is_empty rest then [] else c ∷ rest

unfoldable pub trim : Chars → Chars
unfolding trim_start trim_end
trim s = trim_end (trim_start s)

-- `str::split_whitespace`; `word` is the word that is being read
unfoldable pub emit : Chars → List Chars → List Chars
emit [] rest = rest
emit (c ∷ word) rest = (c ∷ word) ∷ rest

unfoldable pub words_from : Chars → Chars → List Chars
unfolding emit
words_from word [] = emit word []
words_from word (c ∷ s) =
    let rest = words_from [] s in
    let more = words_from (word ++ c ∷ []) s in if is_whitespace c then emit word rest else more

unfoldable pub split_whitespace : Chars → List Chars
unfolding words_from
split_whitespace s = words_from [] s

-- What a command does besides its requests: print a line, or end the process.
pub data Outcome : Type 0 where
  nothing : Outcome
  printed : Bytes → Outcome
  exited : ℕ → Outcome

abbrev pub help_text : Bytes
help_text =
    codes "Commands:\n"
    ++ codes "  put <key> <value>   Store a string value (value may contain spaces)\n"
    ++ codes "  get <key>           Fetch a value\n"
    ++ codes "  help                Show this message\n"
    ++ codes "  exit | quit         Exit the CLI"

module _ {W : Type 0} (send : Request → Exec W Response) (client : KvClient) where
  -- `"put" => ..`, on the words behind the command
  unfoldable pub run_put : List Chars → Exec W Outcome
  run_put [] = lift (err (message "usage: put <key> <value>"))
  run_put (key ∷ parts) =
      let value = join (codes " ") parts in
      if is_empty value
      then lift (err (message "usage: put <key> <value>"))
      else Client.put send client (encode key) (encode value) >>= λ done.
          lift (ok (printed (codes "put ok")))

  -- `"get" => ..`
  unfoldable pub run_get : List Chars → Exec W Outcome
  run_get [] = lift (err (message "usage: get <key>"))
  run_get (key ∷ []) = do
    response ← Client.get send client (encode key)
    lift (ok (printed response.value))
  run_get (key ∷ other ∷ parts) = lift (err (message "usage: get <key>"))

  -- the `match` on the command
  unfoldable pub run_words : List Chars → Exec W Outcome
  unfolding run_put run_get
  run_words [] = lift (err (message "expected a command"))
  run_words (cmd ∷ parts) =
      if bytes_eq cmd (codes "help") || bytes_eq cmd (codes "?")
      then lift (ok (printed help_text))
      else if bytes_eq cmd (codes "exit") || bytes_eq cmd (codes "quit")
      then lift (ok (exited 0))
      else if bytes_eq cmd (codes "put")
      then run_put parts
      else if bytes_eq cmd (codes "get")
      then run_get parts
      else lift (err (message "unknown command"))

  -- `run_command`
  unfoldable pub run_command : Chars → Exec W Outcome
  unfolding run_words trim split_whitespace
  run_command line =
      if is_empty (trim line) then lift (ok nothing) else run_words (split_whitespace (trim line))

  -- The loop of `main` on the lines that `read_line` gives before the end of the input: what each
  -- command showed, and whether the process ends by itself, by `exit` or by a failed read.
  unfoldable pub session : List (Result Chars) → W → List (Result Outcome) × W
  unfolding run_command
  session [] w = ([], w)
  session (err e ∷ lines) w = (err e ∷ [], w)
  session (ok line ∷ lines) w =
      let (r, w') = run_command line w in
      let (rest, w'') = session lines w' in
      elim r [
        | ok (exited code) ↦ (ok (exited code) ∷ [], w')
        | ok (printed text) ↦ (ok (printed text) ∷ rest, w'')
        | ok nothing ↦ (ok nothing ∷ rest, w'')
        | err e ↦ (err e ∷ rest, w'')
      ]

-- `main` on the URL of its arguments and the lines of its input: the banner, and what the session showed.
unfoldable pub main :
    {W : Type 0}
    → (ℕ → Result (Unit {0}))
    → (Request → Exec W Response)
    → Bytes
    → List (Result Chars)
    → Exec W (Bytes × List (Result Outcome))
unfolding session
main build send url lines w = elim (Client.new build url) [
  | err e ↦ (err e, w)
  | ok client ↦
      let (shown, w') = session send client lines w in
      (
        ok (
          codes "DIYnamo CLI connected to " ++ url ++ codes "\n" ++ help_text ++ codes "\n",
          shown,
        ),
        w',
      )
]
