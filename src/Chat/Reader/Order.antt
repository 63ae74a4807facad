-- ===== src/Chat/Reader/Order.antt =====
-- What the reading loop of internal/chat/room.go delivers, and how it can end.
use mathlib.Core.List.{append_assoc, append-nil}
use p2papp.Prelude.{
  ℕ, ◌≤◌, ◌≡◌, ◌≢◌, refl, sym, ap, ◌∙◌, Bool, true, false, Option, none, some, List, [], ◌∷◌, ◌++◌,
  Str, length, length-append, arith, Option-cases, subst,
}
use p2papp.Chat.{Message}
use p2papp.Chat.Reader.{
  Packet, reading, sending, panicked, Reader, channel_size, held, on_next, Step, nexts, sends,
  panics, stops, receives, cancels, closes, Run, here, next, started,
}

-- The channel holds at most its size, it is closed only after the context is cancelled, the loop
-- panics only on a closed channel; and up to the cancellation, `taken` is what left the channel,
-- what is in it, and what the loop holds.
record IsOrdered (taken given : List Message) (r : Reader) : Type 0 where
  bounded : length r.buffer ≤ channel_size
  closed_cancelled : r.cancelled ≡ false → r.closed ≡ false
  panicked_closed : r.mode ≡ panicked → r.closed ≡ true
  in_order : r.cancelled ≡ false → taken ≡ given ++ (r.buffer ++ held r.mode)

-- The order over a step that takes up messages, that sends, and that hands one on.
taken_lem :
    (taken given b k : List Message)
    → taken ≡ given ++ (b ++ [])
    → taken ++ k ≡ (given ++ []) ++ (b ++ k)
taken_lem taken given b k e = rw (e, append-nil given, append-nil b) (append_assoc given b k)

sent_lem :
    (taken given b : List Message) (m : Message)
    → taken ≡ given ++ (b ++ m ∷ [])
    → taken ++ [] ≡ (given ++ []) ++ ((b ++ m ∷ []) ++ [])
sent_lem taken given b m e = rw (append-nil taken, append-nil given, append-nil (b ++ m ∷ [])) e

given_lem :
    (taken given b h : List Message) (m : Message)
    → taken ≡ given ++ (m ∷ b ++ h)
    → taken ++ [] ≡ (given ++ m ∷ []) ++ (b ++ h)
given_lem taken given b h m e = append-nil taken ∙ (e ∙ sym (append_assoc given (m ∷ []) (b ++ h)))

module _ (self : Str) (decode : List ℕ → Option Message) where
  on_next_panics : (b : Bool) (a : Option Packet) → on_next self decode b a ≢ panicked
  unfolding on_next
  on_next_panics b none = λ h. ground arith
  on_next_panics b (some p) = λ h. ground (arith, Option-cases (decode p.payload))

  Step-IsOrdered :
      {r : Reader} {taken given t g : List Message} {u : Reader}
      → Step self decode r t g u
      → IsOrdered taken given r
      → IsOrdered (taken ++ t) (given ++ g) u
  Step-IsOrdered {taken} {given} (nexts r a e) o = record {
    bounded = o.bounded;
    closed_cancelled = o.closed_cancelled;
    panicked_closed = λ h. absurd (on_next_panics r.cancelled a h);
    in_order = λ h.
        taken_lem taken given r.buffer _ (o.in_order h ∙ ap (λ x. given ++ (r.buffer ++ held x)) e);
  }
  Step-IsOrdered {taken} {given} (sends r m e open_yet room) o = record {
    bounded = omega (arith, length-append r.buffer (m ∷ []), room);
    closed_cancelled = o.closed_cancelled;
    panicked_closed = λ h. absurd (ground arith);
    in_order = λ h.
        sent_lem taken given r.buffer m (o.in_order h ∙ ap (λ x. given ++ (r.buffer ++ held x)) e);
  }
  Step-IsOrdered {taken} {given} (panics r m e shut) o = record {
    bounded = o.bounded;
    closed_cancelled = o.closed_cancelled;
    panicked_closed = λ h. shut;
    in_order = λ h. absurd (ground (arith, o.closed_cancelled h));
  }
  Step-IsOrdered {taken} {given} (stops r m e done) o = record {
    bounded = o.bounded;
    closed_cancelled = o.closed_cancelled;
    panicked_closed = λ h. absurd (ground arith);
    in_order = λ h. absurd (ground arith);
  }
  Step-IsOrdered {taken} {given} (receives r m ms e) o = record {
    bounded = ground (arith, o.bounded);
    closed_cancelled = o.closed_cancelled;
    panicked_closed = o.panicked_closed;
    in_order = λ h.
        given_lem taken given ms (held r.mode) m
          (o.in_order h ∙ ap (λ x. given ++ (x ++ held r.mode)) e);
  }
  Step-IsOrdered {taken} {given} (cancels r) o = record {
    bounded = o.bounded;
    closed_cancelled = λ h. absurd (ground arith);
    panicked_closed = o.panicked_closed;
    in_order = λ h. absurd (ground arith);
  }
  Step-IsOrdered {taken} {given} (closes r c open_yet) o = record {
    bounded = o.bounded;
    closed_cancelled = λ h. absurd (ground arith);
    panicked_closed = λ h. refl;
    in_order = λ h. absurd (ground arith);
  }

  Run-IsOrdered :
      (taken given : List Message) (r : Reader)
      → Run self decode started taken given r
      → IsOrdered taken given r
  Run-IsOrdered taken given r here = record {
    bounded = omega arith;
    closed_cancelled = λ h. refl;
    panicked_closed = λ h. absurd (ground arith);
    in_order = λ h. refl;
  }
  Run-IsOrdered taken given r (next run step) = Step-IsOrdered step (Run-IsOrdered _ _ _ run)

  -- From the start of the service, whatever the interleaving, as long as the context is not
  -- cancelled: the channel holds at most 100 messages; the messages that the loop has decoded from
  -- others are those that left the channel, then those in it, then the one that waits to be sent, so
  -- that none is lost, doubled or overtaken; and the loop has not panicked.
  pub Run-in_order :
      (taken given : List Message) (r : Reader)
      → Run self decode started taken given r
      → r.cancelled ≡ false
      → (length r.buffer ≤ channel_size)
        × (taken ≡ given ++ (r.buffer ++ held r.mode))
        × (r.mode ≢ panicked)
  Run-in_order taken given r run going =
      let o = Run-IsOrdered taken given r run in
      (
        o.bounded,
        o.in_order going,
        λ h. ground (arith, o.panicked_closed h, o.closed_cancelled going),
      )

  -- Wherever the loop waits for a message and the channel is open: if a message of another peer comes
  -- that can be decoded, and `Close` runs before the loop has sent it, the loop can take the
  -- send on the closed channel, which panics.
  pub Run-panicked :
      (r : Reader) (p : Packet) (m : Message)
      → r.mode ≡ reading
      → r.closed ≡ false
      → p.received_from ≢ self
      → decode p.payload ≡ some m
      → (u : Reader) × Run self decode r (m ∷ []) [] u × (u.mode ≡ panicked)
  unfolding on_next
  Run-panicked r p m waits open_yet other good =
      let taken_mode : on_next self decode r.cancelled (some p) ≡ sending m = ground arith in
      (
        _,
        next
            (next
              (next
                (next here (
                  subst (λ k. Step self decode r (held k) [] (record r { mode = k })) taken_mode
                    (nexts r (some p) waits)))
                (cancels _))
              (closes _ refl open_yet))
            (panics _ m refl refl),
        refl,
      )
