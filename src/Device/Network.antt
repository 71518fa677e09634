-- ===== src/Device/Network.antt =====
-- CNetworkManager, Src/Device/Network/NetworkManager.cpp, and CDhcpClient,
-- Src/Device/Network/DhcpClient.cpp, as built for the device: the address of the interface, and the
-- DHCP clients.
pub mod Digits
pub mod Mac
pub mod Setup
pub mod Clients
use Prim.Native.Char.{code}
use Prim.Native.String.{String}
use shuchuang.Shared.{
  ℕ, zero, suc, ◌+◌, ◌-◌, ◌*◌, ◌%◌, ◌/◌, Bool, true, false, Option, none, some, List, [], ◌∷◌, ◌++◌,
  not, ◌&&◌, ◌||◌, ltb, leb, ◌==◌, string_key, nat_key, if◌then◌else◌, take, is_some,
}
use shuchuang.Shared.Dict.{Dict, find, insert, erase}
use shuchuang.Shared.Outcome.{Outcome, Action, pure, get, or_throw, modify, ◌>>=◌, ◌>>◌}
use shuchuang.Shared.Poco.{Json}

-- A digit by its code.
unfoldable pub hex_value : ℕ → Option ℕ
hex_value c =
    if leb c 57 && leb 48 c
    then some (c - 48)
    else if leb c 102 && leb 97 c
    then some (c - 97 + 10)
    else if leb c 70 && leb 65 c
    then some (c - 65 + 10)
    else none

-- `mac[index] += v`, in a byte.
unfoldable pub add_at : ℕ → ℕ → List ℕ → List ℕ
add_at i v [] = []
add_at zero v (b ∷ bs) = (b + v) % 256 ∷ bs
add_at (suc i) v (b ∷ bs) = b ∷ add_at i v bs

-- The loop over the text, with how many characters are left.
unfoldable pub read_digits : ℕ → ℕ → String → List ℕ → Option (List ℕ)
read_digits zero i s mac = some mac
read_digits (suc n) i String.[] mac = none
read_digits (suc n) i (String.◌∷◌ c s) mac = elim (hex_value (code c)) [
  | none ↦ none
  | some t ↦ read_digits n (suc i) s (add_at (i / 2) (if i % 2 == 0 then t * 16 else t) mac)
]

abbrev pub empty_mac : List ℕ
empty_mac = 0 ∷ 0 ∷ 0 ∷ 0 ∷ 0 ∷ 0 ∷ []

-- The address of a text; one that is too short is refused.
unfoldable pub read_mac : String → Option (List ℕ)
read_mac s = read_digits 12 0 s empty_mac

-- The interface: its flags, of which the lowest bit is IFF_UP, and its address.
pub record Link : Type 0 where
  pub flags : ℕ
  pub hwaddr : List ℕ

-- What the system says to one of the calls: whether the socket opens, the flags are read, and the
-- change is made.
pub record Says : Type 0 where
  pub opens : Bool
  pub reads : Bool
  pub changes : Bool

unfoldable pub set_if_down : Says → Action Link Bool
set_if_down r =
    if r.opens && (r.reads && r.changes)
    then (do modify (λ l. record l { flags = l.flags - l.flags % 2 }); pure true)
    else pure false

unfoldable pub set_if_up : Says → Action Link Bool
set_if_up r =
    if r.opens && (r.reads && r.changes)
    then (do modify (λ l. record l { flags = l.flags - l.flags % 2 + 1 }); pure true)
    else pure false

unfoldable pub set_if_mac : Says → List ℕ → Action Link Bool
set_if_mac r mac =
    if r.opens && r.changes
    then (do modify (λ l. record l { hwaddr = mac }); pure true)
    else pure false

-- `ret = ret && ...`: a call is made where the ones before it went well.
unfoldable pub and_then : Bool → Action Link Bool → Action Link Bool
and_then ret m = if ret then m else pure false

unfoldable pub set_up : Says → Says → Says → Option (List ℕ) → Action Link Bool
unfolding and_then set_if_down set_if_mac set_if_up
set_up a b c none = pure false
set_up a b c (some mac) = do
  down ← set_if_down a
  set ← and_then down (set_if_mac b mac)
  and_then set (set_if_up c)

module _ {O : Type 0} ⦃j : Json O⦄ where
  -- `initIf`, by the entry "DeviceInfo" of the configuration.
  unfoldable pub init_if : Says → Says → Says → Option O → Action Link Bool
  unfolding set_up
  init_if a b c none = pure false
  init_if a b c (some d) =
      if not (j.has d "mac")
      then pure false
      else do text ← or_throw (j.get_string d "mac"); set_up a b c (read_mac text)

-- `getMiiLinkState` of the register BMSR: no remote fault, and the link is there.
unfoldable pub mii_is_up : ℕ → Bool
mii_is_up v = ltb (v % 32) 16 && leb 4 (v % 8)

-- What the file of the process number holds: a number, and whether there is a process of it.
abbrev pub PidFile : Type 0
PidFile = Option (ℕ × Bool)

-- `pid` is 0 before a number was read. `killed` is what `kill` was called with.
pub record DhcpClient : Type 0 where
  pub pid : ℕ
  pub killed : List ℕ

abbrev pub new_client : DhcpClient
new_client = record { pid = 0; killed = [] }

unfoldable pub read_pid_file : PidFile → DhcpClient → Bool × DhcpClient
read_pid_file none c = (false, c)
read_pid_file (some (pid, alive)) c = (alive, record c { pid = pid })

-- The number is not reset: the line that would do it comes after both `return`.
unfoldable pub kill_client : Bool → DhcpClient → Bool × DhcpClient
kill_client done c =
    if c.pid == 0 then (false, c) else (done, record c { killed = c.killed ++ c.pid ∷ [] })

-- The loop that waits for the file.
unfoldable pub await_pid : List PidFile → DhcpClient → DhcpClient
unfolding read_pid_file
await_pid [] c = c
await_pid (f ∷ fs) c =
    let (there, c') = read_pid_file f c in let rest = await_pid fs c' in if there then c' else rest

-- What becomes of the child: it is not made, it is not waited for, or it runs, and the file is read up
-- to five times.
pub data Fork : Type 0 where
  fails unwaited : Fork
  forks : List PidFile → Fork

unfoldable pub after_fork : Fork → DhcpClient → Bool × DhcpClient
unfolding await_pid
after_fork fails c = (false, c)
after_fork unwaited c = (false, c)
after_fork (forks files) c = let c' = await_pid (take 5 files) c in (not (c'.pid == 0), c')

-- `startDhcp` of CDhcpClient: a process that the file names is killed first.
unfoldable pub start_client : PidFile → Fork → DhcpClient → Bool × DhcpClient
unfolding read_pid_file kill_client after_fork
start_client file fork c =
    let (there, c') = read_pid_file file c in
    after_fork fork (if there then (kill_client true c').1 else c')

-- `m_dhcp_map`, and what the clients that are gone have killed.
pub record NetworkManager : Type 0 where
  pub dhcp_map : Dict String DhcpClient
  pub gone : List ℕ

module _ {O : Type 0} ⦃j : Json O⦄ where
  -- `startDhcp`: the client is kept whether it started or not.
  unfoldable pub start_dhcp : String → Option O → PidFile → Fork → Action NetworkManager Bool
  start_dhcp eth config file fork = do
    n ← get
    if is_some (find eth n.dhcp_map) then pure false else do
      d ← or_throw config
      hostname ← or_throw (j.get_string d "uuid")
      modify
          (λ m. record m { dhcp_map = insert eth (start_client file fork new_client).1 m.dhcp_map })
      pure true

-- `stopDhcp`: the client stops its process, and once more when it is deleted.
unfoldable pub stop_dhcp : String → Bool → Bool → NetworkManager → Bool × NetworkManager
unfolding kill_client
stop_dhcp eth first second n = elim (find eth n.dhcp_map) [
  | none ↦ (false, n)
  | some c ↦ (
    true,
    record n {
      dhcp_map = erase eth n.dhcp_map;
      gone = n.gone ++ (kill_client second (kill_client first c).1).1.killed;
    },
  )
]
