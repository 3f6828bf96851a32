-- ===== src/Udp/Relayed.antt =====
-- src/udp.rs: what a session has relayed, in either direction.
use cortado.Base.{
  ℕ, zero, suc, ◌≤◌, ◌≡◌, refl, sym, ap, ◌∙◌, true, false, List, [], ◌∷◌, ◌++◌, append-nil,
  append_assoc, map, Option, none, some, Bytes, take, length, All, arith,
}
use cortado.Addr.{SocketAddr, IsSocketAddr}
use cortado.Socks.Datagram.{encode_udp, decode_udp, decode_udp-encode_udp}
use cortado.Udp.SessionTask.{
  Arm, outbound, channel_closed, received, receive_error, control_read, control_error, idle,
  Exchange, Turn, on_arm, on_reply, after, run_arms,
}

-- The datagram that an arm relays outwards, and the reply that it relays back.
abbrev pub out_of : Arm → List (Option (SocketAddr × Bytes))
out_of (outbound dst payload true) = some (dst, payload) ∷ []
out_of _ = []

abbrev pub reply_in :
    SocketAddr → Option (SocketAddr × Bytes) → List (Bytes × (SocketAddr × SocketAddr))
reply_in src none = []
reply_in src (some (remote, payload)) = (payload, (remote, src)) ∷ []

abbrev pub reply_of : SocketAddr → Arm → List (Bytes × (SocketAddr × SocketAddr))
reply_of src (received datagram true) = reply_in src (decode_udp datagram)
reply_of src _ = []

abbrev pub gathered : {A B : Type 0} → (A → List B) → List A → List B
gathered f [] = []
gathered f (a ∷ rest) = f a ++ gathered f rest

abbrev pub Fits : Arm → Type 0
Fits (outbound dst payload sent) = IsSocketAddr dst
Fits _ = Unit {0}

-- From one exchange to another by the first arms: what the relay is sent decodes to what those arms
-- put out, in order, and what is replied is what those arms received, in order.
pub record Relays (src : SocketAddr) (arms : List Arm) (x y : Exchange) : Type 0 where
  pub sent : map decode_udp y.sent ≡ map decode_udp x.sent ++ gathered out_of arms
  pub replied : y.replies ≡ x.replies ++ gathered (reply_of src) arms

Relays-nothing : (src : SocketAddr) (x : Exchange) → Relays src [] x x
Relays-nothing src x = record {
  sent = sym (append-nil (map decode_udp x.sent));
  replied = sym (append-nil x.replies);
}

map-append : {A B : Type 0} (f : A → B) (xs ys : List A) → map f (xs ++ ys) ≡ map f xs ++ map f ys
map-append f [] ys = refl
map-append f (x ∷ xs) ys = ap (◌∷◌ (f x)) (map-append f xs ys)

Relays-more :
    (src : SocketAddr) (a : Arm) (arms : List Arm) (x y z : Exchange)
    → Relays src (a ∷ []) x y
    → Relays src arms y z
    → Relays src (a ∷ arms) x z
Relays-more src a arms x y z one more = record {
  sent =
      more.sent
      ∙ ap (λ l. l ++ gathered out_of arms) one.sent
      ∙ ap (λ l. (map decode_udp x.sent ++ l) ++ gathered out_of arms) (append-nil (out_of a))
      ∙ append_assoc (map decode_udp x.sent) (out_of a) (gathered out_of arms);
  replied =
      more.replied
      ∙ ap (λ l. l ++ gathered (reply_of src) arms) one.replied
      ∙ ap (λ l. (x.replies ++ l) ++ gathered (reply_of src) arms) (append-nil (reply_of src a))
      ∙ append_assoc x.replies (reply_of src a) (gathered (reply_of src) arms);
}

-- A reply that is sent on, or was none.
replying-same :
    (src : SocketAddr) (o : Option (SocketAddr × Bytes)) (x : Exchange)
    → ((on_reply src true o x).1.sent ≡ x.sent)
      × ((on_reply src true o x).1.replies ≡ x.replies ++ reply_in src o)
replying-same src none x = (refl, sym (append-nil x.replies))
replying-same src (some (remote, payload)) x = (refl, refl)

refused-same :
    (src : SocketAddr) (o : Option (SocketAddr × Bytes)) (x : Exchange)
    → (on_reply src false o x).1 ≡ x
refused-same src none x = refl
refused-same src (some (remote, payload)) x = refl

-- An arm relays its own datagram or reply, and nothing if it ends the loop.
on_arm-Relays :
    (src : SocketAddr) (a : Arm) (x : Exchange) → Fits a → Relays src (a ∷ []) x (on_arm src a x).1
unfolding on_arm
on_arm-Relays src (outbound dst payload true) x fits = record {
  sent =
      map-append decode_udp x.sent (encode_udp dst payload x.enc_buf ∷ [])
      ∙ ap (λ o. map decode_udp x.sent ++ o ∷ [])
          (decode_udp-encode_udp dst payload x.enc_buf fits);
  replied = sym (append-nil x.replies);
}
on_arm-Relays src (outbound dst payload false) x fits = record {
  sent = sym (append-nil _);
  replied = sym (append-nil _);
}
on_arm-Relays src channel_closed x fits = record {
  sent = sym (append-nil _);
  replied = sym (append-nil _);
}
on_arm-Relays src (received datagram true) x fits =
    let (sent, replies) = replying-same src (decode_udp datagram) x in
    record {
      sent = ap (map decode_udp) sent ∙ sym (append-nil _);
      replied = replies ∙ ap (λ l. x.replies ++ l) (sym (append-nil _));
    }
on_arm-Relays src (received datagram false) x fits =
    let same = refused-same src (decode_udp datagram) x in
    record {
      sent = ap (λ (y : Exchange). map decode_udp y.sent) same ∙ sym (append-nil _);
      replied = ap (λ (y : Exchange). y.replies) same ∙ sym (append-nil _);
    }
on_arm-Relays src receive_error x fits = record {
  sent = sym (append-nil _);
  replied = sym (append-nil _);
}
on_arm-Relays src (control_read zero) x fits = record {
  sent = sym (append-nil _);
  replied = sym (append-nil _);
}
on_arm-Relays src (control_read (suc n)) x fits = record {
  sent = sym (append-nil _);
  replied = sym (append-nil _);
}
on_arm-Relays src control_error x fits = record {
  sent = sym (append-nil _);
  replied = sym (append-nil _);
}
on_arm-Relays src idle x fits = record { sent = sym (append-nil _); replied = sym (append-nil _) }

-- How far a run got: all the arms if it still waits, and otherwise up to the one that ended it.
pub record Ran (src : SocketAddr) (arms : List Arm) (x : Exchange) (t : Turn) : Type 0 where
  pub taken : ℕ
  pub within : taken ≤ length arms
  pub all_if_waiting : t.0 ≡ none → taken ≡ length arms
  pub relays : Relays src (take taken arms) x t.1

later_Ran :
    (src : SocketAddr) (a : Arm) (arms : List Arm) (x : Exchange) (t : Turn)
    → Relays src (a ∷ []) x t.1
    → ((y : Exchange) → Ran src arms y (run_arms src arms y))
    → Ran src (a ∷ arms) x (after t (λ y. run_arms src arms y))
later_Ran src a arms x (none, y) one more =
    let rest = more y in
    let bound = rest.within in
    record {
      taken = suc rest.taken;
      within = omega (arith, bound);
      all_if_waiting = λ h. ap suc (rest.all_if_waiting h);
      relays = Relays-more src a (take rest.taken arms) x y _ one rest.relays;
    }
later_Ran src a arms x (some r, y) one more = record {
  taken = 1;
  within = omega arith;
  all_if_waiting = λ h. cc;
  relays = one;
}

-- Whatever the arms, if the targets of their datagrams are socket addresses, the datagrams sent to
-- the relay decode to the targets and payloads of the arms that were taken, in order, and the
-- replies are those that the relay's datagrams decode to, in order; a session that still waits has
-- taken all the arms.
pub run_arms-Ran :
    (src : SocketAddr) (arms : List Arm) (x : Exchange)
    → All Fits arms
    → Ran src arms x (run_arms src arms x)
unfolding run_arms
run_arms-Ran src [] x fits = record {
  taken = 0;
  within = omega arith;
  all_if_waiting = λ h. refl;
  relays = Relays-nothing src x;
}
run_arms-Ran src (a ∷ arms) x (fit, fits) =
    later_Ran src a arms x (on_arm src a x) (on_arm-Relays src a x fit)
      (λ y. run_arms-Ran src arms y fits)
