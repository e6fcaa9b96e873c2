-- ===== src/Server/Identity.antt =====
-- The identifiers that `nIDCounter` gives out.
use networking_projects.Prelude.{
  ℕ, zero, suc, ◌+◌, ◌%◌, ◌^◌, ◌≤◌, ◌<◌, ◌≡◌, refl, true, List, [], ◌∷◌, ◌++◌, Option, none, some,
  arith, length, get_elem?, get_elem?-append, Bool-cases, inl, inr,
}
use networking_projects.Message.{Message}
use networking_projects.Connection.{new_connection, connect_to_client}
use networking_projects.Connection.Types.{Connection, Platform, Owner}
use networking_projects.Server.{
  Server, Hooks, new_server, on_accept, message_client, message_all_clients, can_talk, erase,
}
use networking_projects.Server.Broadcast.{survivors, message_all_clients_lem}

-- The pointers are not null, and the identifiers of what they point to rise from `lo` to below `hi`:
-- in particular no two connections have the same one.
abbrev pub Rising : {T : Type 0} → List (Connection T) → ℕ → List (Option ℕ) → ℕ → Type 0
Rising heap lo [] hi = lo ≤ hi
Rising heap lo (none ∷ cs) hi = ⊥
Rising {T} heap lo (some p ∷ cs) hi =
    (c : Connection T) × (get_elem? heap p ≡ some c) × (lo ≤ c.id) × Rising heap (suc c.id) cs hi

module _ {T : Type 0} where
  Rising-weaken :
      (heap : List (Connection T)) (lo lo' : ℕ) (cs : List (Option ℕ)) (hi : ℕ)
      → lo' ≤ lo
      → Rising heap lo cs hi
      → Rising heap lo' cs hi
  Rising-weaken heap lo lo' [] hi h r = omega arith
  Rising-weaken heap lo lo' (none ∷ cs) hi h r = r
  Rising-weaken heap lo lo' (some p ∷ cs) hi h (c, e, l, r) = (c, e, omega arith, r)

  get_elem?-append_some :
      (heap ys : List (Connection T)) (p : ℕ) (c : Connection T)
      → get_elem? heap p ≡ some c
      → get_elem? (heap ++ ys) p ≡ some c
  get_elem?-append_some [] ys p c e = cc
  get_elem?-append_some (x ∷ heap) ys zero c e = e
  get_elem?-append_some (x ∷ heap) ys (suc p) c e = get_elem?-append_some heap ys p c e

  Rising-append :
      (heap : List (Connection T)) (lo : ℕ) (cs : List (Option ℕ)) (hi : ℕ) (c : Connection T)
      → Rising heap lo cs hi
      → c.id ≡ hi
      → Rising (heap ++ c ∷ []) lo (cs ++ some (length heap) ∷ []) (hi + 1)
  Rising-append heap lo [] hi c r e = (c, get_elem?-append heap c, omega arith, omega arith)
  Rising-append heap lo (none ∷ cs) hi c r e = r
  Rising-append heap lo (some p ∷ cs) hi c (d, f, l, r) e =
      (d, get_elem?-append_some heap (c ∷ []) p d f, l, Rising-append heap (suc d.id) cs hi c r e)

  Rising-heap :
      (heap ys : List (Connection T)) (lo : ℕ) (cs : List (Option ℕ)) (hi : ℕ)
      → Rising heap lo cs hi
      → Rising (heap ++ ys) lo cs hi
  Rising-heap heap ys lo [] hi r = r
  Rising-heap heap ys lo (none ∷ cs) hi r = r
  Rising-heap heap ys lo (some p ∷ cs) hi (d, f, l, r) =
      (d, get_elem?-append_some heap ys p d f, l, Rising-heap heap ys (suc d.id) cs hi r)

  Rising-erase :
      (heap : List (Connection T)) (lo : ℕ) (cs : List (Option ℕ)) (hi : ℕ)
      → Rising heap lo cs hi
      → Rising heap lo (erase none cs) hi
  unfolding erase
  Rising-erase heap lo [] hi r = r
  Rising-erase heap lo (none ∷ cs) hi r = absurd r
  Rising-erase heap lo (some p ∷ cs) hi (d, f, l, r) =
      (d, f, l, Rising-erase heap (suc d.id) cs hi r)

module _ {T S : Type 0} (platform : Platform T) (hooks : Hooks T S) where
  Rising-survivors :
      (heap : List (Connection T)) (lo : ℕ) (cs : List (Option ℕ)) (hi : ℕ)
      → Rising heap lo cs hi
      → Rising heap lo (survivors platform hooks heap cs) hi
  Rising-survivors heap lo [] hi r = r
  Rising-survivors heap lo (none ∷ cs) hi r = absurd r
  Rising-survivors heap lo (some p ∷ cs) hi (d, f, l, r) =
      let rest = Rising-survivors heap (suc d.id) cs hi r in
      elim (Bool-cases (can_talk platform hooks heap (some p))) [
        | inl alive ↦ rw alive (d, f, l, rest)
        | inr dead ↦ rw dead (Rising-weaken heap (suc d.id) lo _ hi (omega arith) rest)
      ]

  pub data Call : Type 0 where
    -- A connection request, at this time; a socket that asio has accepted is open.
    accepts : ℕ → Call
    accept_fails : Call
    tells : Option ℕ → Message T → Call
    tells_all : Message T → Option ℕ → Call

  unfoldable pub step : Server T S → Call → Server T S
  step s (accepts now) = on_accept platform hooks s (some (true, now))
  step s accept_fails = on_accept platform hooks s none
  step s (tells client m) = message_client platform hooks s client m
  step s (tells_all m ignore) = message_all_clients platform hooks s m ignore

  unfoldable pub run : Server T S → List Call → Server T S
  run s [] = s
  run s (c ∷ cs) = run (step s c) cs

  abbrev pub IsNumbered : Server T S → Type 0
  IsNumbered s = Rising s.heap 10000 s.connections s.id_counter

  -- And no number beyond `n` is next.
  abbrev pub Numbered : Server T S → ℕ → Type 0
  Numbered s n = IsNumbered s × (s.id_counter ≤ n)

  pub accepts-Numbered :
      (s : Server T S) (now : ℕ)
      → IsNumbered s
      → s.id_counter + 1 < 2 ^ 32
      → Numbered (on_accept platform hooks s (some (true, now))) (s.id_counter + 1)
  unfolding on_accept new_connection connect_to_client
  accepts-Numbered s now r h =
      let newconn = new_connection platform Owner.server true now in
      let c = (connect_to_client platform newconn s.id_counter).0 in
      let no_wrap : (s.id_counter + 1) % 2 ^ 32 ≡ s.id_counter + 1 = omega arith in
      elim (Bool-cases (hooks.on_client_connect s.user newconn).1) [
        | inl allowed ↦
            rw (allowed, no_wrap)
              (Rising-append s.heap 10000 s.connections s.id_counter c r refl, omega arith)
        | inr denied ↦
            rw denied
              (Rising-heap s.heap (newconn ∷ []) 10000 s.connections s.id_counter r, omega arith)
      ]

  pub tells-Numbered :
      (s : Server T S) (client : Option ℕ) (m : Message T) (n : ℕ)
      → Numbered s n
      → Numbered (message_client platform hooks s client m) n
  unfolding message_client
  tells-Numbered s none m n (r, k) = (Rising-erase s.heap 10000 s.connections s.id_counter r, k)
  tells-Numbered s (some p) m n (r, k) =
      elim (Bool-cases (can_talk platform hooks s.heap (some p))) [
        | inl alive ↦ rw alive (r, k)
        | inr dead ↦ rw dead (Rising-erase s.heap 10000 s.connections s.id_counter r, k)
      ]

  pub tells_all-Numbered :
      (s : Server T S) (m : Message T) (ignore : Option ℕ) (n : ℕ)
      → Numbered s n
      → Numbered (message_all_clients platform hooks s m ignore) n
  tells_all-Numbered s m ignore n (r, k) =
      rw (message_all_clients_lem platform hooks s m ignore)
        (Rising-survivors s.heap 10000 s.connections s.id_counter r, k)

  step-Numbered :
      (s : Server T S) (c : Call)
      → IsNumbered s
      → s.id_counter + 1 < 2 ^ 32
      → Numbered (step s c) (s.id_counter + 1)
  unfolding step on_accept
  step-Numbered s (accepts now) r h = accepts-Numbered s now r h
  step-Numbered s accept_fails r h = (r, omega arith)
  step-Numbered s (tells client m) r h =
      tells-Numbered s client m (s.id_counter + 1) (r, omega arith)
  step-Numbered s (tells_all m ignore) r h =
      tells_all-Numbered s m ignore (s.id_counter + 1) (r, omega arith)

  run-Numbered :
      (cs : List Call) (s : Server T S)
      → IsNumbered s
      → s.id_counter + length cs < 2 ^ 32
      → IsNumbered (run s cs)
  unfolding run
  run-Numbered [] s r h = r
  run-Numbered (c ∷ cs) s r h =
      let (r', k) = step-Numbered s c r (omega arith) in run-Numbered cs (step s c) r' (omega arith)

  -- From a new server, after fewer calls than the counter can give numbers out before it wraps round:
  -- the container holds no null pointer, and the identifiers of its connections are at least 10000,
  -- strictly rising in the container's order and below the counter, whatever the derived class
  -- answers and which connections have died. So no two clients have the same identifier.
  pub run-IsNumbered :
      (user : S) (cs : List Call)
      → 10000 + length cs < 2 ^ 32
      → IsNumbered (run (new_server platform hooks user) cs)
  unfolding new_server
  run-IsNumbered user cs h = run-Numbered cs (new_server platform hooks user) (omega arith) h
