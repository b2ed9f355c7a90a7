-- ===== src/Lima/Escape/Words/RoundTrip.antt =====
-- `shell_escape` of src/lima.rs against the reader: what a shell gets back from the command line
-- that the proxy builds.
use clawstainer.Base.{
  ℕ, String, Bool, true, false, any, [], ◌∷◌, not, ◌≡◌, refl, sym, ap, ◌∙◌, ◌&&◌, ◌||◌, Option,
  some, List, [], ◌∷◌, arith, nat_eq, ◌==◌, inl, inr, Bool-cases, nat_eq→eq,
}
use clawstainer.Base.Text.{has_char, replace}
use clawstainer.Lima.Escape.{needs_quotes, shell_escape, push_args, inner_command, linux_binary}
use clawstainer.Lima.Escape.Words.{
  gap, word, quoted, is_special, is_gap, next, push_char, cut, add_char, read_words,
}
use clawstainer.Base.Put.{put, append-put, put_assoc}
use Prim.Native.Char.{code}
use Prim.Native.String.{◌++◌}
use text.Mathlib.TextEquality.{Char-path}
use text.Mathlib.TextLemmas.{append-nil}

abbrev prepend : String → Option (List String) → Option (List String)
prepend String.[] r = r
prepend (String.◌∷◌ c s) r = push_char c (prepend s r)

prepend-some : (s w : String) (ws : List String) → prepend s (some (w ∷ ws)) ≡ some (put s w ∷ ws)
prepend-some String.[] w ws = refl
prepend-some (String.◌∷◌ c s) w ws = rw (prepend-some s w ws)

-- Inside the quotes every character stands for itself.
read_words-quoted :
    (s rest : String)
    → read_words quoted (put (replace b'\'' "'\\''" s) (put "'" rest))
      ≡ prepend s (read_words word rest)
unfolding read_words replace next add_char is_gap
read_words-quoted String.[] rest = refl
read_words-quoted (String.◌∷◌ c s) rest = elim (Bool-cases (nat_eq (code c) b'\'')) [
  | inl quote ↦
      let same : c ≡ "'" = Char-path c "'" (nat_eq→eq (code c) 39 quote) in
      rw (quote, append-put "'\\''" (replace b'\'' "'\\''" s), same)
        (ap (push_char "'") (read_words-quoted s rest))
  | inr other ↦ rw (other, other) (ap (push_char c) (read_words-quoted s rest))
]

-- A character that stands for itself outside of quotes, and a text of such.
unfoldable pub is_plain : ℕ → Bool
is_plain c = not (is_gap c || nat_eq c b'\'' || nat_eq c b'\\' || is_special c)

unfoldable pub all_plain : String → Bool
unfolding is_plain
all_plain String.[] = true
all_plain (String.◌∷◌ c s) = is_plain (code c) && all_plain s

next-plain : (c : ℕ) → is_plain c ≡ true → (next gap c ≡ word) × (next word c ≡ word)
unfolding next is_plain
next-plain c h = elim (Bool-cases (is_gap c)) [
  | inl g ↦ absurd (ground arith)
  | inr g ↦ elim (Bool-cases (is_special c)) [
    | inl p ↦ absurd (ground arith)
    | inr p ↦ ground arith
  ]
]

read_words-plain :
    (s rest : String)
    → all_plain s ≡ true
    → read_words word (put s rest) ≡ prepend s (read_words word rest)
unfolding read_words all_plain add_char
read_words-plain String.[] rest h = refl
read_words-plain (String.◌∷◌ c s) rest h = elim (Bool-cases (is_plain (code c))) [
  | inl plain ↦
      rw ((next-plain (code c) plain).1) (ap (push_char c) (read_words-plain s rest (ground arith)))
  | inr n ↦ absurd (ground arith)
]

-- A blank, the two quotes, and `$ ! ( ) & ; |`.
abbrev pub quoted_chars : List ℕ
quoted_chars = b' ' ∷ b'\'' ∷ b'"' ∷ b'$' ∷ b'!' ∷ b'(' ∷ b')' ∷ b'&' ∷ b';' ∷ b'|' ∷ []

-- What `shell_escape` is right on: a text with one of these characters, or one that is not empty and
-- has only characters that stand for themselves.
abbrev pub is_covered : String → Bool
is_covered s = any (λ c. has_char c s) quoted_chars || (not (s == "") && all_plain s)

or_false : (b : Bool) → (b || false) ≡ b
or_false true = refl
or_false false = refl

or_assoc : (a b c : Bool) → ((a || b) || c) ≡ (a || (b || c))
or_assoc true b c = refl
or_assoc false b c = refl

any-quoted_chars : (s : String) → any (λ c. has_char c s) quoted_chars ≡ needs_quotes s
unfolding needs_quotes
any-quoted_chars s = simp (or_false, or_assoc)

read_words-bare :
    (s rest : String)
    → not (s == "") ≡ true
    → all_plain s ≡ true
    → read_words gap (put s rest) ≡ prepend s (read_words word rest)
unfolding read_words all_plain add_char
read_words-bare String.[] rest n h = absurd (ground arith)
read_words-bare (String.◌∷◌ c s) rest n h = elim (Bool-cases (is_plain (code c))) [
  | inl plain ↦
      rw ((next-plain (code c) plain).0) (ap (push_char c) (read_words-plain s rest (ground arith)))
  | inr n ↦ absurd (ground arith)
]

read_words_open : (x : String) → read_words gap (String.◌∷◌ "'" x) ≡ read_words quoted x
unfolding read_words next add_char is_gap
read_words_open x = refl

read_words_blank : (x : String) → read_words word (String.◌∷◌ " " x) ≡ cut (read_words gap x)
unfolding read_words next add_char is_gap
read_words_blank x = refl

read_words_end : read_words word "" ≡ some ("" ∷ [])
unfolding read_words
read_words_end = refl

read_words-shell_escape :
    (s rest : String)
    → is_covered s ≡ true
    → read_words gap (put (shell_escape s) rest) ≡ prepend s (read_words word rest)
unfolding shell_escape
read_words-shell_escape s rest covered =
    let h : (needs_quotes s || (not (s == "") && all_plain s)) ≡ true =
      rw (any-quoted_chars s) at covered in
    elim (Bool-cases (needs_quotes s)) [
      | inl q ↦
          let body : String = replace b'\'' "'\\''" s in
          rw
            (
              q,
              append-put body "'",
              append-put "'" (put body "'"),
              put_assoc body "'" rest,
              read_words_open,
            )
            (read_words-quoted s rest)
      | inr b ↦ rw b (read_words-bare s rest (ground arith) (ground arith))
    ]

abbrev pub AllCovered : List String → Type 0
AllCovered [] = Unit {0}
AllCovered (arg ∷ args) = (is_covered arg ≡ true) × AllCovered args

-- What `push_args` adds behind the command.
abbrev args_text : List String → String
args_text [] = ""
args_text (arg ∷ args) = put " " (put (shell_escape arg) (args_text args))

push_args-put : (cmd : String) (args : List String) → push_args cmd args ≡ put cmd (args_text args)
unfolding push_args
push_args-put cmd [] = sym (append-nil cmd) ∙ append-put cmd ""
push_args-put cmd (arg ∷ args) =
    push_args-put (cmd ++ " " ++ shell_escape arg) args
    ∙ rw
        (
          append-put " " (shell_escape arg),
          append-put cmd (put " " (shell_escape arg)),
          put_assoc cmd,
        )
        refl

read_words-args_text :
    (args : List String) → AllCovered args → read_words word (args_text args) ≡ some ("" ∷ args)
read_words-args_text [] h = read_words_end
read_words-args_text (arg ∷ args) h =
    rw
      (
        read_words_blank,
        read_words-shell_escape arg (args_text args) h.0,
        read_words-args_text args h.1,
        prepend-some arg "" args,
        sym (append-put arg ""),
        append-nil arg,
      )
      refl

read_words_sudo :
    (x : String)
    → read_words gap (put ("sudo " ++ shell_escape linux_binary) x)
      ≡ prepend "sudo" (cut (prepend linux_binary (read_words word x)))
unfolding read_words next add_char is_gap is_special shell_escape needs_quotes has_char
read_words_sudo x = refl

-- The command line that the proxy builds reads back, in a shell, as `sudo`, the binary and the
-- arguments of the call, if each argument is covered: it holds a blank, a quote or one of
-- `$ ! ( ) & ; |`, or it is not empty and no character of it means anything to the shell.
pub read_words-inner_command :
    (args : List String)
    → AllCovered args
    → read_words gap (inner_command args) ≡ some ("sudo" ∷ linux_binary ∷ args)
unfolding inner_command
read_words-inner_command args h =
    rw
      (
        push_args-put ("sudo " ++ shell_escape linux_binary) args,
        read_words_sudo,
        read_words-args_text args h,
      )
      refl
