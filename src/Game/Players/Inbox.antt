-- ===== src/Game/Players/Inbox.antt =====
-- What one client gets of all that the server of MMO_Game/src/MMO_Server.cpp posts.
use networking_projects.Prelude.{
  ℕ, ◌≡◌, refl, ◌&&◌, not, arith, subst, sym, ap, ◌∙◌, true, false, List, [], ◌∷◌, ◌++◌, map, suc,
  Option, none, some, ◌==◌, ==_refl, ==_iff, Bool-cases, inl, inr, if◌then◌else◌, replicate,
  append_assoc,
}
use mathlib.Core.Path.{ap₂}
use networking_projects.Message.{Message}
use networking_projects.Connection.Types.{Connection, Action, post_send}
use networking_projects.Server.{can_talk, same}
use networking_projects.Server.Broadcast.{recipients, sends_to}
use networking_projects.Game.Common.{GameMsg, PlayerDescription}
use networking_projects.Game.GameServer.{GamePlatform, GameServer, hooks, remove_player, add_player}
use networking_projects.Game.GameServer.Departures.{AreAlive, announcements}
use networking_projects.Game.GameServer.Register.{introductions}
use networking_projects.Game.Players.Roster.{players_of}

module _ {T : Type 0} where
  -- The message of a post, and those posted to one client, in order.
  abbrev sent_by : Action T → List (Message T)
  sent_by (post_send msg) = msg ∷ []
  sent_by act = []

  abbrev pub posted_to : ℕ → List (ℕ × Action T) → List (Message T)
  posted_to q [] = []
  posted_to q ((p, act) ∷ acts) =
      let rest = posted_to q acts in if p == q then sent_by act ++ rest else rest

  pub posted_to-append :
      (q : ℕ) (xs ys : List (ℕ × Action T))
      → posted_to q (xs ++ ys) ≡ posted_to q xs ++ posted_to q ys
  posted_to-append q [] ys = refl
  posted_to-append q ((p, act) ∷ xs) ys =
      let rest = posted_to-append q xs ys in
      elim (Bool-cases (p == q)) [
        | inl same ↦ rw same (
            ap (◌++◌ (sent_by act)) rest
            ∙ sym (append_assoc (sent_by act) (posted_to q xs) (posted_to q ys)))
        | inr other ↦ rw other rest
      ]

  -- The same of four parts, each of them known.
  pub posted_to-append_all :
      (q : ℕ) (w x y z : List (ℕ × Action T)) (xs ys zs : List (Message T))
      → posted_to q x ≡ xs
      → posted_to q y ≡ ys
      → posted_to q z ≡ zs
      → posted_to q (((w ++ x) ++ y) ++ z) ≡ posted_to q w ++ (xs ++ (ys ++ zs))
  posted_to-append_all q w x y z xs ys zs hx hy hz =
      posted_to-append q ((w ++ x) ++ y) z
      ∙ ap₂ ◌++◌
          (posted_to-append q (w ++ x) y
            ∙ ap₂ ◌++◌ (posted_to-append q w x ∙ ap (◌++◌ (posted_to q w)) hx) hy)
          hz
      ∙ append_assoc (posted_to q w ++ xs) ys zs
      ∙ append_assoc (posted_to q w) xs (ys ++ zs)

-- How often a client stands in the container.
abbrev pub times : ℕ → List (Option ℕ) → ℕ
times q [] = 0
times q (c ∷ cs) = let rest = times q cs in if same c (some q) then suc rest else rest

module _ {F : Type 0} (platform : GamePlatform F) where
  open platform use {base}

  pub posted_to-sends_to :
      (heap : List (Connection GameMsg)) (q : ℕ) (ignore : Option ℕ) (msg : Message GameMsg)
      (cs : List (Option ℕ))
      → same (some q) ignore ≡ false
      → can_talk base (hooks platform) heap (some q) ≡ true
      → posted_to q
          (sends_to base (hooks platform) msg (recipients base (hooks platform) heap ignore cs))
        ≡ replicate (times q cs) msg
  posted_to-sends_to heap q ignore msg [] wanted h = refl
  posted_to-sends_to heap q ignore msg (none ∷ cs) wanted h =
      posted_to-sends_to heap q ignore msg cs wanted h
  posted_to-sends_to heap q ignore msg (some p ∷ cs) wanted h =
      let rest = posted_to-sends_to heap q ignore msg cs wanted h in
      elim (Bool-cases (p == q)) [
        | inl itself ↦
            let meant : same (some p) ignore ≡ false =
              ap (λ i. same (some i) ignore) ((==_iff p q).0 itself) ∙ wanted in
            let open_end : can_talk base (hooks platform) heap (some p) ≡ true =
              ap (λ i. can_talk base (hooks platform) heap (some i)) ((==_iff p q).0 itself) ∙ h in
            rw (open_end, meant, itself) (ap (◌∷◌ msg) rest)
        | inr other ↦
            elim (Bool-cases
              (can_talk base (hooks platform) heap (some p) && not (same (some p) ignore))) [
                | inl send ↦ rw (send, other) rest
                | inr skip ↦ rw (skip, other) rest
              ]
      ]

  once-alive :
      (heap : List (Connection GameMsg)) (q : ℕ) (cs : List (Option ℕ))
      → AreAlive platform heap cs
      → times q cs ≡ 1
      → can_talk base (hooks platform) heap (some q) ≡ true
  once-alive heap q [] h once = absurd (omega (arith, once))
  once-alive heap q (none ∷ cs) h once = once-alive heap q cs h.1 once
  once-alive heap q (some p ∷ cs) h once = elim (Bool-cases (p == q)) [
    | inl itself ↦
        subst (λ i. can_talk base (hooks platform) heap (some i) ≡ true) ((==_iff p q).0 itself) h.0
    | inr other ↦ once-alive heap q cs h.1 (rw other at once)
  ]

  pub posted_to-introductions :
      (q : ℕ) (players : List (ℕ × PlayerDescription F))
      → posted_to q (introductions platform q players)
        ≡ map (add_player platform) (players_of players)
  posted_to-introductions q [] = refl
  posted_to-introductions q ((id, d) ∷ players) =
      rw (==_refl q) (ap (◌∷◌ (add_player platform d)) (posted_to-introductions q players))

  -- What is sent to all but one comes once to any other client that stands in the container once.
  pub posted_to-once :
      (heap : List (Connection GameMsg)) (q : ℕ) (ignore : Option ℕ) (msg : Message GameMsg)
      (cs : List (Option ℕ))
      → same (some q) ignore ≡ false
      → AreAlive platform heap cs
      → times q cs ≡ 1
      → posted_to q
          (sends_to base (hooks platform) msg (recipients base (hooks platform) heap ignore cs))
        ≡ msg ∷ []
  posted_to-once heap q ignore msg cs wanted h once =
      posted_to-sends_to heap q ignore msg cs wanted (once-alive heap q cs h once)
      ∙ ap (λ n. replicate n msg) once

  pub posted_to-announcements :
      (s : GameServer platform) (q : ℕ) (pids : List ℕ)
      → AreAlive platform s.heap s.connections
      → times q s.connections ≡ 1
      → posted_to q (announcements platform s pids) ≡ map (remove_player platform) pids
  posted_to-announcements s q [] h once = refl
  posted_to-announcements s q (pid ∷ pids) h once =
      posted_to-append q _ (announcements platform s pids)
      ∙ ap₂ ◌++◌
          (posted_to-once s.heap q none (remove_player platform pid) s.connections refl h once)
          (posted_to-announcements s q pids h once)
