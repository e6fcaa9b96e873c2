-- ===== src/Game/Players/Channel.antt =====
-- One client's share of what the server sends to one client and to all.
use networking_projects.Prelude.{
  ℕ, ◌≡◌, refl, sym, ap, ◌∙◌, true, false, List, [], ◌∷◌, ◌++◌, Option, none, some, append-nil,
  ◌==◌, Bool-cases, inl, inr, if◌then◌else◌, replicate, suc, true≢false, arith, ==_iff,
}
use networking_projects.Message.{Message}
use networking_projects.Connection.{send}
use networking_projects.Connection.Types.{Connection}
use networking_projects.Server.{can_talk, same, erase, message_client}
use networking_projects.Server.Broadcast.{recipients, survivors, sends_to, message_all_clients_lem}
use networking_projects.Game.Common.{GameMsg}
use networking_projects.Game.GameServer.{GamePlatform, GameServer, hooks, tell, tell_all}
use networking_projects.Game.Players.Inbox.{posted_to, posted_to-append, posted_to-sends_to, times}

times-erase : (q : ℕ) (cs : List (Option ℕ)) → times q (erase none cs) ≡ times q cs
unfolding erase
times-erase q [] = refl
times-erase q (none ∷ cs) = times-erase q cs
times-erase q (some p ∷ cs) = ap (λ n. if p == q then suc n else n) (times-erase q cs)

apart : (q p : ℕ) → (q == p) ≡ false → (p == q) ≡ false
apart q p h = ground (arith, h)

module _ {F : Type 0} (platform : GamePlatform F) where
  open platform use {base}

  -- The client at `q` is connected, and stands in the container once.
  abbrev pub Reaches : ℕ → GameServer platform → Type 0
  Reaches q s =
      (can_talk base (hooks platform) s.heap (some q) ≡ true) × (times q s.connections ≡ 1)

  times-survivors :
      (heap : List (Connection GameMsg)) (q : ℕ) (cs : List (Option ℕ))
      → can_talk base (hooks platform) heap (some q) ≡ true
      → times q (survivors base (hooks platform) heap cs) ≡ times q cs
  unfolding can_talk
  times-survivors heap q [] h = refl
  times-survivors heap q (none ∷ cs) h = times-survivors heap q cs h
  times-survivors heap q (some p ∷ cs) h =
      let rest = times-survivors heap q cs h in
      elim (Bool-cases (can_talk base (hooks platform) heap (some p))) [
        | inl alive ↦ rw alive (ap (λ n. if p == q then suc n else n) rest)
        | inr dead ↦ elim (Bool-cases (p == q)) [
          | inl itself ↦ absurd (
              true≢false (
                sym h
                ∙ ap (λ i. can_talk base (hooks platform) heap (some i))
                    (sym ((==_iff p q).0 itself))
                ∙ dead))
          | inr other ↦ rw (dead, other) rest
        ]
      ]

  -- What is sent to another client is not posted to this one.
  pub tell-other :
      (s : GameServer platform) (client : Option ℕ) (q : ℕ) (m : Message GameMsg)
      → same (some q) client ≡ false
      → Reaches q s
      → Reaches q (tell platform s client m)
        × (posted_to q (tell platform s client m).posted ≡ posted_to q s.posted)
  unfolding message_client send
  tell-other s none q m other (alive, once) = ((alive, times-erase q s.connections ∙ once), refl)
  tell-other s (some p) q m other (alive, once) =
      elim (Bool-cases (can_talk base (hooks platform) s.heap (some p))) [
        | inl open_end ↦ rw open_end (
          (alive, once),
          posted_to-append q s.posted _ ∙ rw (apart q p other) (append-nil (posted_to q s.posted)),
        )
        | inr dead ↦ rw dead ((alive, times-erase q s.connections ∙ once), refl)
      ]

  -- What is sent to all but another client is posted to this one.
  pub tell_all-posted :
      (s : GameServer platform) (ignore : Option ℕ) (q : ℕ) (m : Message GameMsg)
      → same (some q) ignore ≡ false
      → Reaches q s
      → Reaches q (tell_all platform s m ignore)
        × (posted_to q (tell_all platform s m ignore).posted ≡ posted_to q s.posted ++ m ∷ [])
  tell_all-posted s ignore q m other (alive, once) =
      rw (message_all_clients_lem base (hooks platform) s m ignore) (
        (alive, times-survivors s.heap q s.connections alive ∙ once),
        posted_to-append q s.posted _
            ∙ ap (◌++◌ (posted_to q s.posted)) (
                posted_to-sends_to platform s.heap q ignore m s.connections other alive
                ∙ ap (λ n. replicate n m) once),
      )

  posted_to-ignored :
      (heap : List (Connection GameMsg)) (q : ℕ) (msg : Message GameMsg) (cs : List (Option ℕ))
      → posted_to q
          (sends_to base (hooks platform) msg (recipients base (hooks platform) heap (some q) cs))
        ≡ []
  posted_to-ignored heap q msg [] = refl
  posted_to-ignored heap q msg (none ∷ cs) = posted_to-ignored heap q msg cs
  posted_to-ignored heap q msg (some p ∷ cs) =
      let rest = posted_to-ignored heap q msg cs in
      elim (Bool-cases (can_talk base (hooks platform) heap (some p))) [
        | inl alive ↦ elim (Bool-cases (p == q)) [
          | inl itself ↦ rw (alive, itself) rest
          | inr other ↦ rw (alive, other, other) rest
        ]
        | inr dead ↦ rw dead rest
      ]

  -- What is sent to all but this client is not posted to it.
  pub tell_all-ignored :
      (s : GameServer platform) (q : ℕ) (m : Message GameMsg)
      → Reaches q s
      → Reaches q (tell_all platform s m (some q))
        × (posted_to q (tell_all platform s m (some q)).posted ≡ posted_to q s.posted)
  tell_all-ignored s q m (alive, once) =
      rw (message_all_clients_lem base (hooks platform) s m (some q)) (
        (alive, times-survivors s.heap q s.connections alive ∙ once),
        posted_to-append q s.posted _
            ∙ ap (◌++◌ (posted_to q s.posted)) (posted_to-ignored s.heap q m s.connections)
            ∙ append-nil (posted_to q s.posted),
      )

  pub tell-heap :
      (s : GameServer platform) (client : Option ℕ) (m : Message GameMsg)
      → (tell platform s client m).heap ≡ s.heap
  unfolding message_client send
  tell-heap s none m = refl
  tell-heap s (some p) m = elim (Bool-cases (can_talk base (hooks platform) s.heap (some p))) [
    | inl open_end ↦ rw open_end refl
    | inr dead ↦ rw dead refl
  ]

  pub tell_all-heap :
      (s : GameServer platform) (m : Message GameMsg) (ignore : Option ℕ)
      → (tell_all platform s m ignore).heap ≡ s.heap
  tell_all-heap s m ignore =
      ap (λ t. t.heap) (message_all_clients_lem base (hooks platform) s m ignore)
