-- ===== src/Device/Rpc/Actions.antt =====
-- The text "component.method" of a request, `parseAction` of CRPCClient.
use Prim.Native.Char.{Char, code}
use Prim.Native.String.append
use Prim.Native.String.{String, ◌++◌ as append_text}
use shuchuang.Shared.{◌≡◌, Bool, false, some, arith, ◌||◌, ◌==◌, nat_key}
use shuchuang.Device.Rpc.{parse_action, before_dot}

-- A dot stands in the text.
abbrev pub has_dot : String → Bool
has_dot String.[] = false
has_dot (String.◌∷◌ c s) = code c == before_dot || has_dot s

-- A component without a dot and a method are read back from the text that joins them with a dot.
pub parse_action_joined :
    (component method : String) (dot : Char)
    → code dot ≡ before_dot
    → has_dot component ≡ false
    → parse_action (append_text component (String.◌∷◌ dot method)) ≡ some (component, method)
unfolding parse_action
parse_action_joined String.[] method dot d h = rw append.nil (ground arith)
parse_action_joined (String.◌∷◌ c s) method dot d h =
    rw append.cons (ground (arith, parse_action_joined s method dot d))
