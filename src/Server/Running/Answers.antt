-- ===== src/Server/Running/Answers.antt =====
-- What the server does for a connection whose answer to the challenge was right.
use networking_projects.Prelude.{ℕ, ◌≡◌, ap, List, ◌∷◌, ◌++◌, map, some, get_elem?}
use networking_projects.Connection.Types.{Connection, Platform, Action, post_send, client_validated}
use networking_projects.Server.{Server, Hooks, perform, validated}

module _ {T S : Type 0} (platform : Platform T) (hooks : Hooks T S) where
  pub perform-validated :
      (p : ℕ) (s : Server T S) (c : Connection T) (actions : List (Action T))
      → get_elem? s.heap p ≡ some c
      → perform platform hooks p s (client_validated ∷ actions)
        ≡ perform platform hooks p
            (record s {
              user = (hooks.on_client_validated s.user c).0;
              posted =
                  s.posted ++ map (λ m. (p, post_send m)) (hooks.on_client_validated s.user c).1;
            })
            actions
  unfolding perform validated
  perform-validated p s c actions there =
      ap (λ o. perform platform hooks p (validated platform hooks p s o) actions) there
