-- ===== src/Server/Registrar/Wakes.antt =====
-- CRegServer, Src/TransmitServer/RegServer/RegServer.cpp: how the loop that waits for the sockets of
-- the devices learns of a new one. `regHandler` waits on a copy of the list; whoever puts a socket into
-- the list writes a byte to an inner socket, which is in every copy. `sslHandler` does the same with
-- the sockets of its own.
use shuchuang.Shared.{
  ℕ, ◌+◌, ◌-◌, ◌≤◌, ◌<◌, ◌≡◌, refl, Bool, true, false, List, [], ◌∷◌, ◌++◌, arith, if◌then◌else◌,
}
use shuchuang.Server.Registrar.{drop_socket}
use shuchuang.Server.Registrar.Sockets.{count, count-append, count-drop_socket}

-- Where the loop is: before the copy, in the `select`, or with the sockets that can be read, of which
-- the inner one is apart.
pub data Phase : Type 0 where
  copying selecting : Phase
  handling : Bool → List ℕ → Phase

-- `listed` is the list of the sockets, `copied` the copy of it that the `select` watches, `bytes` what
-- stands in the inner socket, and `writers` the threads that have put a socket into the list and have
-- not written their byte yet. `connected` says whether `createInnerSocket` got its connection, which
-- `start` does not ask; `held` whether the mutex of the inner socket is locked for good.
pub record Loop : Type 0 where
  pub phase : Phase
  pub listed : List ℕ
  pub copied : List ℕ
  pub bytes : ℕ
  pub writers : ℕ
  pub connected : Bool
  pub held : Bool

unfoldable pub push_back : ℕ → Loop → Loop
push_back i l = record l { listed = l.listed ++ i ∷ []; writers = l.writers + 1 }

-- `sendBytes` on a socket without a connection throws, between the `lock` and the `unlock` of the mutex.
unfoldable pub write_inner_socket : Loop → Loop
write_inner_socket l =
    if l.connected
    then record l { bytes = l.bytes + 1; writers = l.writers - 1 }
    else record l { writers = l.writers - 1; held = true }

unfoldable pub copy_list : Loop → Loop
copy_list l = record l { copied = l.listed; phase = selecting }

unfoldable pub read_inner_socket : List ℕ → Loop → Loop
read_inner_socket ready l = record l { bytes = l.bytes - 1; phase = handling false ready }

unfoldable pub take_socket : ℕ → Bool → List ℕ → Loop → Loop
take_socket i woken ready l = record l {
  listed = drop_socket i l.listed;
  phase = handling woken ready;
}

-- A `select` comes back where a socket can be read, or after its time; the inner socket can be read
-- where a byte stands in it.
pub data Step (l : Loop) : Loop → Type 0 where
  pushes : (i : ℕ) → Step l (push_back i l)
  writes : 0 < l.writers → l.held ≡ false → Step l (write_inner_socket l)
  drops : (i : ℕ) → Step l (record l { listed = drop_socket i l.listed })
  copies : l.phase ≡ copying → Step l (copy_list l)
  comes_back :
      (woken : Bool) (ready : List ℕ)
      → l.phase ≡ selecting
      → (woken ≡ true → 0 < l.bytes)
      → Step l (record l { phase = handling woken ready })
  reads : (ready : List ℕ) → l.phase ≡ handling true ready → Step l (read_inner_socket ready l)
  takes :
      (i : ℕ) (woken : Bool) (ready : List ℕ)
      → l.phase ≡ handling woken (i ∷ ready)
      → Step l (take_socket i woken ready l)
  ends : l.phase ≡ handling false [] → Step l (record l { phase = copying })

pub data Reach (l : Loop) : Loop → Type 0 where
  here : Reach l l
  next : {m n : Loop} → Reach l m → Step m n → Reach l n

-- While the loop waits, each socket of the list that it does not watch has a byte that stands in the
-- inner socket or is about to be written.
pub record IsWatched (l : Loop) : Type 0 where
  pub connects : l.connected ≡ true
  pub watched :
      l.phase ≡ selecting → (i : ℕ) → count i l.listed ≤ count i l.copied + (l.bytes + l.writers)

copying-ne-selecting : {p : Phase} → p ≡ copying → p ≡ selecting → ⊥
copying-ne-selecting e f = cc

Step-IsWatched : {l m : Loop} → Step l m → IsWatched l → IsWatched m
unfolding push_back write_inner_socket copy_list read_inner_socket take_socket count
Step-IsWatched {l} (pushes i) w = record {
  connects = w.connects;
  watched = λ e k. ground (arith, w.watched e k, count-append k l.listed (i ∷ []));
}
Step-IsWatched {l} (writes h f) w =
    rw w.connects (record { connects = refl; watched = λ e k. omega (arith, w.watched e k) })
Step-IsWatched {l} (drops i) w = record {
  connects = w.connects;
  watched = λ e k. ground (arith, w.watched e k, count-drop_socket k i l.listed);
}
Step-IsWatched {l} (copies e) w = record { connects = w.connects; watched = λ e k. omega arith }
Step-IsWatched {l} (comes_back woken ready e h) w = record {
  connects = w.connects;
  watched = λ e k. cc;
}
Step-IsWatched {l} (reads ready e) w = record { connects = w.connects; watched = λ e k. cc }
Step-IsWatched {l} (takes i woken ready e) w = record { connects = w.connects; watched = λ e k. cc }
Step-IsWatched {l} (ends e) w = record { connects = w.connects; watched = λ e k. cc }

Reach-IsWatched : {l m : Loop} → l.connected ≡ true → l.phase ≡ copying → Reach l m → IsWatched m
Reach-IsWatched up start here = record {
  connects = up;
  watched = λ e i. absurd (copying-ne-selecting start e);
}
Reach-IsWatched up start (next r s) = Step-IsWatched s (Reach-IsWatched up start r)

-- Where the inner socket is connected, no new socket is overlooked: in every state that the loop reaches
-- from its start, where it waits, no byte stands in the inner socket and no thread is about to write one,
-- it watches every socket of the list.
pub Reach-watches :
    (l m : Loop)
    → l.connected ≡ true
    → l.phase ≡ copying
    → Reach l m
    → m.phase ≡ selecting
    → m.bytes + m.writers ≡ 0
    → (i : ℕ) → count i m.listed ≤ count i m.copied
Reach-watches l m up start r waits quiet i =
    omega (arith, (Reach-IsWatched up start r).watched waits i)
