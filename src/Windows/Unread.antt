-- ===== src/Windows/Unread.antt =====
-- src/platform/windows/tun.rs: what the device has still to be read, and what a read takes of it.
use cortado.Base.{
  ℕ, zero, suc, ◌+◌, ◌≤◌, ◌≡◌, refl, sym, ap, ap₂, ◌∙◌, inl, inr, List, [], ◌∷◌, ◌++◌, append_assoc,
  Option, none, some, Bytes, min, arith, ltb, length, take, drop, take-append-drop, Bool-cases,
  if◌then◌else◌,
}
use cortado.Windows.Tun.{WindowsTun, Polled, waiting, ready, put, receive, read_from, unsent}

abbrev pub joined : List Bytes → Bytes
joined [] = []
joined (p ∷ ps) = p ++ joined ps

abbrev pub pending_bytes : Option (Bytes × ℕ) → Bytes
pending_bytes none = []
pending_bytes (some (pkt, offset)) = drop offset pkt

-- What the device has still to be read, and what the thread that reads has not sent to it.
abbrev pub unread : WindowsTun → Bytes
unread t = pending_bytes t.pending ++ joined t.incoming

abbrev pub behind : WindowsTun → Bytes
behind t = joined (unsent t.held t.arrived)

abbrev pub to_come : WindowsTun → Bytes
to_come t = unread t ++ behind t

abbrev pub bytes_of : Polled → Bytes
bytes_of waiting = []
bytes_of (ready bs) = bs

drop-nil : (n : ℕ) → drop {A = ℕ} n [] ≡ []
drop-nil zero = refl
drop-nil (suc n) = refl

drop-drop : (m n : ℕ) (xs : Bytes) → drop n (drop m xs) ≡ drop (m + n) xs
drop-drop zero n xs = ap (λ k. drop k xs) (let same : n ≡ 0 + n = omega arith in same)
drop-drop (suc m) n [] = drop-nil n ∙ sym (drop-nil (suc m + n))
drop-drop (suc m) n (x ∷ xs) =
    let one_more : suc (m + n) ≡ suc m + n = omega arith in
    drop-drop m n xs ∙ ap (λ k. drop k (x ∷ xs)) one_more

drop_all : (n : ℕ) (xs : Bytes) → length xs ≤ n → drop n xs ≡ []
drop_all n [] h = drop-nil n
drop_all zero (x ∷ xs) h = absurd (ground arith)
drop_all (suc n) (x ∷ xs) h = drop_all n xs (omega arith)

-- What does not fit is pending.
pending_rest :
    (pkt : Bytes) (n : ℕ)
    → pending_bytes (if ltb n (length pkt) then some (pkt, n) else none) ≡ drop n pkt
pending_rest pkt n = elim (Bool-cases (ltb n (length pkt))) [
  | inl more ↦ rw more refl
  | inr all_read ↦ rw all_read (sym (drop_all n pkt (ground arith)))
]

put_lem :
    (pkt : Bytes) (offset room : ℕ) (t : WindowsTun)
    → bytes_of (put pkt offset room t).0 ++ unread (put pkt offset room t).1
      ≡ drop offset pkt ++ joined t.incoming
put_lem pkt offset room t =
    let remaining = drop offset pkt in
    let taken = min (length remaining) room in
    ap (λ (p : Bytes). take taken remaining ++ (p ++ joined t.incoming))
      (pending_rest pkt (offset + taken) ∙ sym (drop-drop offset taken pkt))
    ∙ sym (append_assoc (take taken remaining) (drop taken remaining) (joined t.incoming))
    ∙ ap (λ (p : Bytes). p ++ joined t.incoming) (take-append-drop taken remaining)

receive_lem :
    (room : ℕ) (ps : List Bytes) (t : WindowsTun)
    → t.incoming ≡ ps
    → t.pending ≡ none
    → bytes_of (receive room ps t).0 ++ unread (receive room ps t).1 ≡ unread t
receive_lem room [] t e none_pending = elim (Bool-cases t.reader_gone) [
  | inl gone ↦ rw gone refl
  | inr there ↦ rw there refl
]
receive_lem room (pkt ∷ rest) t e none_pending =
    put_lem pkt 0 room (record t { incoming = rest })
    ∙ sym (ap₂ (λ o (ps : List Bytes). pending_bytes o ++ joined ps) none_pending e)

pub read_from_lem :
    (room : ℕ) (o : Option (Bytes × ℕ)) (t : WindowsTun)
    → t.pending ≡ o
    → bytes_of (read_from room o t).0 ++ unread (read_from room o t).1 ≡ unread t
read_from_lem room none t e = receive_lem room t.incoming t refl e
read_from_lem room (some (pkt, offset)) t e =
    put_lem pkt offset room t ∙ sym (ap (λ o. pending_bytes o ++ joined t.incoming) e)

pub joined-append : (ps qs : List Bytes) → joined (ps ++ qs) ≡ joined ps ++ joined qs
joined-append [] qs = refl
joined-append (p ∷ ps) qs =
    ap (λ (r : Bytes). p ++ r) (joined-append ps qs) ∙ sym (append_assoc p (joined ps) (joined qs))
