-- ===== src/Connection/Transport.antt =====
-- One end's writes through the socket to the other end's incoming queue. TCP is assumed to deliver
-- the bytes that went out, in order: the receiving end reads the sending end's `wire`.
use networking_projects.Prelude.{
  ℕ, ◌≡◌, sym, ap, ◌∙◌, List, [], ◌∷◌, append-nil, map, All, some, subst, some-eq, arith, length,
}
use networking_projects.Message.{Message}
use networking_projects.Message.Laws.{IsSized}
use networking_projects.Connection.Types.{Connection, Platform, OwnedMessage}
use networking_projects.Connection.Write.{Outgoing, Event, run, start, frames}
use networking_projects.Connection.Write.Phase.{start-Inv, Inv}
use networking_projects.Connection.Write.Invariant.{run-Keeps}
use networking_projects.Connection.Write.Drain.{empty_queue-wire}
use networking_projects.Connection.Read.{Incoming, receive, listening}
use networking_projects.Connection.Read.Frame.{IsSendable, arrived_body, owned}
use networking_projects.Connection.Read.Stream.{
  arrivals, arrivals-eq, arrived_body-eq, reads, HasBody, receive-frames,
}

module _ {T : Type 0} (platform : Platform T) (this : ℕ) where
  -- What a listening connection has pushed to its incoming queue once it has read this stream's
  -- first `n` headers and bodies.
  abbrev pub delivered_from : Connection T → ℕ → List ℕ → List (OwnedMessage T)
  delivered_from r n stream = (receive platform this n (listening platform r stream [])).delivered

  delivered-frames :
      (r : Connection T) (ms : List (Message T))
      → All (IsSendable platform) ms
      → delivered_from r (reads ms) (frames platform ms)
        ≡ map (owned this r) (arrivals r.msg_temporary_in.body ms)
  delivered-frames r ms h =
      ap (delivered_from r (reads ms)) (sym (append-nil (frames platform ms)))
      ∙ ap (λ (s : Incoming T). s.delivered) (receive-frames platform this ms r [] [] h)

  -- After any events at the sending end that leave its queue empty, whatever their order, the other
  -- end delivers one message for each message sent, in the order in which they were sent. Each has
  -- the header that was sent; its body is the one sent, but for a message with no body it is the
  -- body of the last message before it that had one. Every message sent has a header that the
  -- platform lays out, with the size of its body, below 2 ^ 32.
  pub run-delivers :
      (c r : Connection T) (es : List (Event T)) (s : Outgoing T)
      → run platform (start platform c) es ≡ some s
      → s.conn.messages_out.items ≡ []
      → All (IsSendable platform) s.sent
      → delivered_from r (reads s.sent) s.wire
        ≡ map (owned this r) (arrivals r.msg_temporary_in.body s.sent)
  run-delivers c r es s e empty h =
      let (s', p, v) = run-Keeps platform (start platform c) es (start-Inv platform c) in
      let w = empty_queue-wire platform s (subst (Inv platform) (some-eq (sym p ∙ e)) v) empty in
      ap (delivered_from r (reads s.sent)) w ∙ delivered-frames r s.sent h

  -- After any events at the sending end that leave its queue empty, if every message sent has a
  -- header that the platform lays out, the size of its body in it, below 2 ^ 32, and a body that is
  -- not empty, the messages that the other end delivers are exactly those sent, in order.
  pub run-delivers_intact :
      (c r : Connection T) (es : List (Event T)) (s : Outgoing T)
      → run platform (start platform c) es ≡ some s
      → s.conn.messages_out.items ≡ []
      → All (IsSendable platform) s.sent
      → All HasBody s.sent
      → delivered_from r (reads s.sent) s.wire ≡ map (owned this r) s.sent
  run-delivers_intact c r es s e empty h b =
      run-delivers c r es s e empty h
      ∙ ap (map (owned this r)) (arrivals-eq r.msg_temporary_in.body s.sent b)

  -- A message with no body that follows one with a body is delivered with that other body: its
  -- header says size 0, so what is delivered is not a message whose header tells its size. Both
  -- messages were sent with their sizes in their headers, below 2 ^ 32.
  pub stale_body :
      (r : Connection T) (m n : Message T)
      → IsSendable platform m
      → IsSendable platform n
      → HasBody m
      → n.body ≡ []
      → let n' : Message T = record n { body = m.body } in
        (delivered_from r (reads (m ∷ n ∷ [])) (frames platform (m ∷ n ∷ []))
          ≡ owned this r m ∷ owned this r n' ∷ [])
        × ¬ IsSized n'
  stale_body r m n hm hn b e = (
    delivered-frames r (m ∷ n ∷ []) (hm, (hn, tt))
        ∙ ap
            (λ (l : List ℕ).
              owned this r (record m { body = l })
              ∷ owned this r (record n { body = arrived_body l n.body })
              ∷ [])
            (arrived_body-eq r.msg_temporary_in.body m.body b)
        ∙ ap
            (λ (l : List ℕ).
              owned this r m ∷ owned this r (record n { body = arrived_body m.body l }) ∷ [])
            e,
    λ told. omega (arith, told, hm.fits, hn.told, ap length e),
  )
