-- ===== src/Device/Network/Clients.antt =====
-- CNetworkManager and CDhcpClient: a DHCP client whose process is not there.
use Prim.Native.String.{String}
use shuchuang.Shared.{
  ℕ, zero, suc, ◌≡◌, refl, Bool, true, false, none, some, List, [], ◌∷◌, ◌++◌, arith, string_key,
  nat_key, ◌==◌, take, eq_refl,
}
use shuchuang.Shared.Dict.{find, insert, find-insert, find-erase}
use shuchuang.Shared.Outcome.{ok, ◌>>=◌}
use shuchuang.Shared.Poco.{Json}
use shuchuang.Device.Network.{
  PidFile, DhcpClient, new_client, kill_client, await_pid, forks, start_client, NetworkManager,
  start_dhcp, stop_dhcp,
}

-- The file names a process that is not there, however often it is read.
abbrev pub dead_file : ℕ → ℕ → List PidFile
dead_file zero pid = []
dead_file (suc n) pid = some (pid, false) ∷ dead_file n pid

abbrev numbered : ℕ → DhcpClient
numbered pid = record { pid = pid; killed = [] }

await_pid-dead_file :
    (n m pid : ℕ) → await_pid (take m (dead_file n pid)) (numbered pid) ≡ numbered pid
unfolding await_pid
await_pid-dead_file zero zero pid = refl
await_pid-dead_file zero (suc m) pid = refl
await_pid-dead_file (suc n) zero pid = refl
await_pid-dead_file (suc n) (suc m) pid = await_pid-dead_file n m pid

start_client-dead_file :
    (n pid : ℕ)
    → (pid == 0) ≡ false
    → start_client none (forks (dead_file (suc n) pid)) new_client ≡ (true, numbered pid)
unfolding start_client
start_client-dead_file n pid ne = rw (await_pid-dead_file n 4 pid) (ground (arith, ne))

module _ {O : Type 0} ⦃j : Json O⦄ where
  start_dhcp-dead_file :
      (eth host : String) (d : O) (k pid : ℕ) (n : NetworkManager)
      → find eth n.dhcp_map ≡ none
      → j.get_string d "uuid" ≡ some host
      → (pid == 0) ≡ false
      → start_dhcp eth (some d) none (forks (dead_file (suc k) pid)) n
        ≡ (ok true, record n { dhcp_map = insert eth (numbered pid) n.dhcp_map })
  unfolding start_dhcp ◌>>=◌
  start_dhcp-dead_file eth host d k pid n free at ne =
      rw (free, at) (rw (start_client-dead_file k pid ne) refl)

  -- A DHCP client that finds the number of a process that is not there counts as started, and when it
  -- is stopped this number is killed, twice.
  pub start_dhcp-stop_dhcp :
      (eth host : String) (d : O) (k pid : ℕ) (a b : Bool) (n : NetworkManager)
      → find eth n.dhcp_map ≡ none
      → j.get_string d "uuid" ≡ some host
      → (pid == 0) ≡ false
      → let (r, m) = start_dhcp eth (some d) none (forks (dead_file (suc k) pid)) n in
        let (stopped, n') = stop_dhcp eth a b m in
        (r ≡ ok true)
        × (stopped ≡ true)
        × (n'.gone ≡ n.gone ++ pid ∷ pid ∷ [])
        × (find eth n'.dhcp_map ≡ none)
  unfolding stop_dhcp kill_client
  start_dhcp-stop_dhcp eth host d k pid a b n free at ne =
      let held = find-insert eth eth (numbered pid) n.dhcp_map in
      let out = find-erase eth eth (insert eth (numbered pid) n.dhcp_map) in
      rw (start_dhcp-dead_file eth host d k pid n free at ne) (
        refl,
        ground (arith, held, free, eq_refl eth),
        ground (arith, held, free, eq_refl eth, ne),
        ground (arith, held, out, free, eq_refl eth),
      )
