-- ===== src/Shell/Reader.antt =====
-- What a POSIX shell makes of a text: words with their quotes removed, and the simple commands that
-- newlines, `;` and `&&` separate. A character with any other meaning to the shell is refused, so
-- what is read here is what runs.
use agent_on_demand.Prelude.{
  ℕ, ◌==◌, Bool, ◌||◌, Option, none, some, List, [], ◌∷◌, ◌++◌, if◌then◌else◌,
}
use agent_on_demand.Prelude.Text.{Text}

-- `amp` is past one `&`.
pub data Mode : Type 0 where
  bare single double amp comment : Mode

-- The word being read (`none` between words), the words before it, and the commands before those.
pub record Reader : Type 0 where
  pub mode : Mode
  pub word : Option Text
  pub command : List Text
  pub done : List (List Text)

-- Characters that a bare word cannot hold.
unfoldable pub is_special : ℕ → Bool
is_special c =
    c == b'|'
    || c == b'<'
    || c == b'>'
    || c == b'('
    || c == b')'
    || c == b'$'
    || c == b'`'
    || c == b'\\'
    || c == b'*'
    || c == b'?'
    || c == b'['
    || c == b']'
    || c == b'~'
    || c == b'!'
    || c == b'{'
    || c == b'}'
    || c == 13

abbrev pub text_of : Option Text → Text
text_of none = []
text_of (some w) = w

abbrev pub grow : ℕ → Reader → Reader
grow c s = record s { word = some (text_of s.word ++ c ∷ []) }

abbrev opened : Mode → Reader → Reader
opened m s = record s { mode = m; word = some (text_of s.word) }

abbrev pub end_word : Option Text → Reader → Reader
end_word none s = s
end_word (some w) s = record s { word = none; command = s.command ++ w ∷ [] }

abbrev end_words : List Text → Reader → Reader
end_words [] s = s
end_words (w ∷ ws) s = record s { command = []; done = s.done ++ (w ∷ ws) ∷ [] }

abbrev pub end_command : Option Text → Reader → Reader
end_command none s = end_words s.command s
end_command (some w) s = record s {
  word = none;
  command = [];
  done = s.done ++ (s.command ++ w ∷ []) ∷ [];
}

-- `#` starts a comment where a word would start.
abbrev hash : Option Text → Reader → Reader
hash none s = record s { mode = Mode.comment }
hash (some w) s = grow b'#' s

step_bare : ℕ → Reader → Option Reader
step_bare c s =
    if c == b'\''
    then some (opened Mode.single s)
    else if c == b'"'
    then some (opened Mode.double s)
    else if c == b' ' || c == b'\t'
    then some (end_word s.word s)
    else if c == b'\n' || c == b';'
    then some (end_command s.word s)
    else if c == b'&'
    then some (record (end_command s.word s) { mode = Mode.amp })
    else if c == b'#'
    then some (hash s.word s)
    else if is_special c
    then none
    else some (grow c s)

unfoldable pub step : Mode → ℕ → Reader → Option Reader
unfolding step_bare is_special
step Mode.bare c s = step_bare c s
step Mode.single c s = if c == b'\'' then some (record s { mode = Mode.bare }) else some (grow c s)
step Mode.double c s =
    if c == b'"'
    then some (record s { mode = Mode.bare })
    else if c == b'$' || c == b'`' || c == b'\\' || c == b'!'
    then none
    else some (grow c s)
step Mode.amp c s = if c == b'&' then some (record s { mode = Mode.bare }) else none
step Mode.comment c s =
    if c == b'\n' then some (record (end_command none s) { mode = Mode.bare }) else some s

infixl 5 ◌and_then◌
abbrev pub ◌and_then◌ : Option Reader → (Reader → Option Reader) → Option Reader
none and_then f = none
some s and_then f = f s

unfoldable pub run : Text → Reader → Option Reader
run [] s = some s
run (c ∷ cs) s = step s.mode c s and_then run cs

abbrev pub finished : Mode → Reader → Option (List (List Text))
finished Mode.bare s = some (end_command s.word s).done
finished Mode.comment s = some (end_command none s).done
finished _ s = none

abbrev pub finish : Option Reader → Option (List (List Text))
finish none = none
finish (some s) = finished s.mode s

-- Between two words of a command: the words before, the commands before.
abbrev pub between : List Text → List (List Text) → Reader
between ws done = record { mode = Mode.bare; word = none; command = ws; done = done }

unfoldable pub read_commands : Text → Option (List (List Text))
read_commands s = finish (run s (between [] []))
