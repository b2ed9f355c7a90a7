-- ===== src/Lima/Escape.antt =====
-- `shell_escape` and the command line that `proxy_to_vm` of src/lima.rs builds from it.
pub mod Words
use clawstainer.Base.{String, Bool, ◌||◌, List, [], ◌∷◌, if◌then◌else◌}
use clawstainer.Base.Text.{has_char, replace}
use Prim.Native.String.{◌++◌}

unfoldable pub needs_quotes : String → Bool
needs_quotes s =
    has_char b' ' s
    || has_char b'\'' s
    || has_char b'"' s
    || has_char b'$' s
    || has_char b'!' s
    || has_char b'(' s
    || has_char b')' s
    || has_char b'&' s
    || has_char b';' s
    || has_char b'|' s

unfoldable pub shell_escape : String → String
shell_escape s = if needs_quotes s then "'" ++ replace b'\'' "'\\''" s ++ "'" else s

-- `inner_cmd.push(' ')` and `inner_cmd.push_str(…)` for each argument.
unfoldable pub push_args : String → List String → String
push_args cmd [] = cmd
push_args cmd (arg ∷ args) = push_args (cmd ++ " " ++ shell_escape arg) args

abbrev pub linux_binary : String
linux_binary = "/tmp/clawstainer-target/release/clawstainer"

unfoldable pub inner_command : List String → String
inner_command args = push_args ("sudo " ++ shell_escape linux_binary) args
