-- ===== src/Game/Players/View.antt =====
-- Part of what is known of each player. The server does not follow what the clients make of their
-- players between two messages, so what it shares with them may be less than whole descriptions.
use networking_projects.Prelude.{
  ℕ, ◌≡◌, refl, sym, ap, ◌∙◌, List, [], ◌∷◌, ◌++◌, Option, none, some, ◌==◌, ==_iff, Bool-cases,
  Option-cases, inl, inr, subst,
}
use networking_projects.Connection.{get_id}
use networking_projects.Connection.Types.{Connection}
use networking_projects.Game.Common.{GameMsg, PlayerDescription}
use networking_projects.Game.GameServer.{
  GameState, GamePlatform, find, insert_or_assign, erase, on_client_disconnect,
}
use networking_projects.Game.GameServer.Maps.{find-insert_or_assign_if}
use networking_projects.Game.Players.{players, players-eq, put, leave}
use networking_projects.Game.Players.Command.{perform_all}
use networking_projects.Game.Players.Mirror.{gone}

module _ {F V : Type 0} (view : PlayerDescription F → V) where
  -- What the view shows of every player.
  abbrev pub seen : List (ℕ × PlayerDescription F) → List (ℕ × V)
  seen [] = []
  seen ((k, d) ∷ l) = (k, view d) ∷ seen l

  pub seen-insert_or_assign :
      (k : ℕ) (d : PlayerDescription F) (l : List (ℕ × PlayerDescription F))
      → seen (insert_or_assign k d l) ≡ insert_or_assign k (view d) (seen l)
  unfolding insert_or_assign
  seen-insert_or_assign k d [] = refl
  seen-insert_or_assign k d ((j, c) ∷ l) = elim (Bool-cases (j == k)) [
    | inl same ↦ rw same refl
    | inr other ↦ rw other (ap (◌∷◌ (j, view c)) (seen-insert_or_assign k d l))
  ]

  pub seen-erase :
      (k : ℕ) (l : List (ℕ × PlayerDescription F)) → seen (erase k l) ≡ erase k (seen l)
  unfolding erase
  seen-erase k [] = refl
  seen-erase k ((j, c) ∷ l) = elim (Bool-cases (j == k)) [
    | inl same ↦ rw same (seen-erase k l)
    | inr other ↦ rw other (ap (◌∷◌ (j, view c)) (seen-erase k l))
  ]

  -- Of the players in a client's map, once it has removed those whose departure it has not been told
  -- of, and of the players in the roster, the view shows the same.
  abbrev pub Tracks : GameState F → List (ℕ × PlayerDescription F) → Type 0
  Tracks user objects =
      players (seen (perform_all (gone user.garbage_ids) objects))
      ≡ players (seen user.player_roster)

  abbrev ShownWith : GameState F → List (ℕ × PlayerDescription F) → List ℕ → Type 0
  ShownWith user objects ids =
      players (seen (perform_all (gone ids) objects)) ≡ players (seen user.player_roster)

  -- With nobody to announce, the view shows the same of both maps.
  pub Tracks-nobody :
      (user : GameState F) (objects : List (ℕ × PlayerDescription F))
      → user.garbage_ids ≡ []
      → Tracks user objects
      → players (seen objects) ≡ players (seen user.player_roster)
  Tracks-nobody user objects nobody h = subst (ShownWith user objects) nobody h

  pub nobody-Tracks :
      (user : GameState F) (objects : List (ℕ × PlayerDescription F))
      → user.garbage_ids ≡ []
      → players (seen objects) ≡ players (seen user.player_roster)
      → Tracks user objects
  nobody-Tracks user objects nobody h = subst (ShownWith user objects) (sym nobody) h

  -- A player comes, or changes, on both sides.
  pub put-seen :
      (k : ℕ) (d : PlayerDescription F) (l l' : List (ℕ × PlayerDescription F))
      → players (seen l) ≡ players (seen l')
      → players (seen (insert_or_assign k d l)) ≡ players (seen (insert_or_assign k d l'))
  unfolding put
  put-seen k d l l' h =
      ap players (seen-insert_or_assign k d l)
      ∙ ap (put k (view d)) h
      ∙ ap players (sym (seen-insert_or_assign k d l'))

  pub erase-seen :
      (k : ℕ) (l l' : List (ℕ × PlayerDescription F))
      → players (seen l) ≡ players (seen l')
      → players (seen (erase k l)) ≡ players (seen (erase k l'))
  unfolding leave
  erase-seen k l l' h =
      ap players (seen-erase k l) ∙ ap (leave k) h ∙ ap players (sym (seen-erase k l'))

  -- A change that the view does not show.
  pub same-seen :
      (k : ℕ) (d : PlayerDescription F) (l : List (ℕ × PlayerDescription F))
      → find k (seen l) ≡ some (view d)
      → players (seen (insert_or_assign k d l)) ≡ players (seen l)
  same-seen k d l shown =
      ap players (seen-insert_or_assign k d l)
      ∙ players-eq _ _ (λ j.
        find-insert_or_assign_if k j (view d) (seen l) ∙ elim (Bool-cases (k == j)) [
          | inl same ↦ rw same (sym shown ∙ ap (λ i. find i (seen l)) ((==_iff k j).0 same))
          | inr other ↦ rw other refl
        ])

perform_all-go :
    {F : Type 0} (ids : List ℕ) (id : ℕ) (l : List (ℕ × PlayerDescription F))
    → perform_all (gone (ids ++ id ∷ [])) l ≡ erase id (perform_all (gone ids) l)
perform_all-go [] id l = refl
perform_all-go (i ∷ ids) id l = perform_all-go ids id (erase i l)

module _ {F V : Type 0} (platform : GamePlatform F) (view : PlayerDescription F → V) where
  open platform use {base}

  -- A player's departure is one more that the client has not been told of.
  pub on_client_disconnect-Tracks :
      (user : GameState F) (c : Option (Connection GameMsg))
      (objects : List (ℕ × PlayerDescription F))
      → Tracks view user objects
      → Tracks view (on_client_disconnect platform user c) objects
  unfolding on_client_disconnect
  on_client_disconnect-Tracks user none objects h = h
  on_client_disconnect-Tracks user (some c) objects h =
      let id = get_id base c in
      elim (Option-cases (find id user.player_roster)) [
        | inl stranger ↦ rw (stranger, on_client_disconnect) h
        | inr (d, known) ↦
            rw (known, on_client_disconnect)
              (ap (λ l. players (seen view l)) (perform_all-go user.garbage_ids id objects)
                ∙ erase-seen view id (perform_all (gone user.garbage_ids) objects)
                    user.player_roster h)
      ]
