-- ===== src/Chat/Members.antt =====
-- The members of a room of internal/chat/room.go after the events of its topic.
use p2papp.Prelude.{
  ◌≡◌, refl, ap, ◌∙◌, Bool, true, false, List, [], ◌∷◌, Str, str_dec, holds, arith, if◌then◌else◌,
}
use p2papp.Assoc
use p2papp.Assoc.{Assoc, get-put, get-remove}
use p2papp.Chat.{Room, PeerEvent, peer_join, peer_leave, on_event, peer_loop, keys_of, members_of}

-- Whether a string is in a list.
abbrev pub listed : Str → List Str → Bool
listed p [] = false
listed p (q ∷ qs) = if holds (str_dec q p) then true else listed p qs

-- Whether a peer is among the members that `Members` lists.
abbrev pub is_member : Str → Room → Bool
is_member p r = listed p (members_of r)

-- The last event of a peer decides.
abbrev pub after_event : Str → PeerEvent → Bool → Bool
after_event p (peer_join q) b = if holds (str_dec q p) then true else b
after_event p (peer_leave q) b = if holds (str_dec q p) then false else b

abbrev pub after_events : Str → List PeerEvent → Bool → Bool
after_events p [] b = b
after_events p (e ∷ es) b = after_events p es (after_event p e b)

listed-put :
    (p q : Str) (m : Assoc Bool)
    → listed p (keys_of (Assoc.put q true m))
      ≡ (if holds (str_dec q p) then true else listed p (keys_of m))
unfolding keys_of Assoc.put
listed-put p q [] = refl
listed-put p q ((j, b) ∷ m) = ground (arith, listed-put p q m)

listed-remove :
    (p q : Str) (m : Assoc Bool)
    → listed p (keys_of (Assoc.remove q m))
      ≡ (if holds (str_dec q p) then false else listed p (keys_of m))
unfolding keys_of Assoc.remove
listed-remove p q [] = ground arith
listed-remove p q ((j, b) ∷ m) = ground (arith, listed-remove p q m)

on_event_lem :
    (p : Str) (e : PeerEvent) (m : Assoc Bool)
    → listed p (keys_of (on_event e m)) ≡ after_event p e (listed p (keys_of m))
unfolding on_event
on_event_lem p (peer_join q) m = listed-put p q m
on_event_lem p (peer_leave q) m = listed-remove p q m

-- After any events of the topic, a peer is among the members that `Members` lists exactly where its
-- last event is a join, or where it has no event and was a member before.
pub members_of-peer_loop :
    (p : Str) (es : List PeerEvent) (r : Room)
    → is_member p (peer_loop es r) ≡ after_events p es (is_member p r)
unfolding peer_loop members_of
members_of-peer_loop p [] r = refl
members_of-peer_loop p (e ∷ es) r =
    members_of-peer_loop p es (record r { members = on_event e r.members })
    ∙ ap (after_events p es) (on_event_lem p e r.members)
