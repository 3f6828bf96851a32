-- ===== src/App/Logging.antt =====
-- src/logging.rs: `Logger` and the worker that writes the messages. The channel is a list, and the
-- printing of the time and of the styles is a parameter.
use cortado.Base.{
  ℕ, ◌≡◌, refl, sym, ap, ap₂, ◌∙◌, inl, inr, Bool, Bool-cases, filter, true, false, List, [], ◌∷◌,
  ◌++◌, append_assoc, append-nil, Bytes, codes, if◌then◌else◌,
}

pub data LogMessage : Type 0 where
  info warn error debug : Bytes → LogMessage

pub record Logger : Type 0 where
  pub sender : List LogMessage
  pub verbose : Bool

abbrev pub new : Bool → Logger
new verbose = record { sender = []; verbose = verbose }

abbrev pub send : LogMessage → Logger → Logger
send m l = record l { sender = l.sender ++ m ∷ [] }

-- A call of one of the four methods; the text of a debug message is made only where it is sent.
unfoldable pub log : LogMessage → Logger → Logger
log (debug text) l = if l.verbose then send (debug text) l else l
log (info text) l = send (info text) l
log (warn text) l = send (warn text) l
log (error text) l = send (error text) l

unfoldable pub log_all : List LogMessage → Logger → Logger
log_all [] l = l
log_all (m ∷ ms) l = log_all ms (log m l)

-- The time of a line in seconds, and what is written before and after the level.
pub record Style : Type 0 where
  pub elapsed : ℕ → Bytes
  pub open_info : Bytes
  pub open_warn : Bytes
  pub open_error : Bytes
  pub open_debug : Bytes
  pub reset : Bytes

module _ (st : Style) where
  abbrev pub shown : LogMessage → Bytes
  shown (info s) = st.open_info ++ (codes "INFO " ++ (st.reset ++ (codes " " ++ s)))
  shown (warn s) = st.open_warn ++ (codes "WARN " ++ (st.reset ++ (codes " " ++ s)))
  shown (error s) = st.open_error ++ (codes "ERROR" ++ (st.reset ++ (codes " " ++ s)))
  shown (debug s) = st.open_debug ++ (codes "DEBUG" ++ (st.reset ++ (codes " " ++ s)))

  abbrev pub line : ℕ → LogMessage → Bytes
  line t m = codes "[" ++ (st.elapsed t ++ (codes "] " ++ (shown m ++ codes "\n")))

  -- The worker, over the messages of the channel, each with the time at which it comes; it ends when
  -- the last sender is dropped.
  unfoldable pub run_log_worker : List (ℕ × LogMessage) → Bytes
  run_log_worker [] = []
  run_log_worker ((t, m) ∷ rest) = line t m ++ run_log_worker rest

-- The messages that a logger sends.
abbrev pub is_sent : Bool → LogMessage → Bool
is_sent verbose (debug text) = verbose
is_sent verbose _ = true

sent_one :
    (m : LogMessage) (l : Logger)
    → ((log m l).verbose ≡ l.verbose)
      × ((log m l).sender ≡ l.sender ++ filter (is_sent l.verbose) (m ∷ []))
unfolding log
sent_one (info text) l = (refl, refl)
sent_one (warn text) l = (refl, refl)
sent_one (error text) l = (refl, refl)
sent_one (debug text) l = elim (Bool-cases l.verbose) [
  | inl on ↦ rw on (refl, refl)
  | inr off ↦ rw off (refl, sym (append-nil l.sender))
]

-- The worker is sent every message, once and in order, but debug messages only where they are wanted.
pub log_all_lem :
    (ms : List LogMessage) (l : Logger)
    → (log_all ms l).sender ≡ l.sender ++ filter (is_sent l.verbose) ms
unfolding log_all
log_all_lem [] l = sym (append-nil l.sender)
log_all_lem (m ∷ ms) l =
    let (same, one) = sent_one m l in
    log_all_lem ms (log m l)
    ∙ ap₂ (λ s v. s ++ filter (is_sent v) ms) one same
    ∙ append_assoc l.sender (filter (is_sent l.verbose) (m ∷ [])) (filter (is_sent l.verbose) ms)
    ∙ ap (λ x. l.sender ++ x) (one_more (is_sent l.verbose m))
  where
    one_more :
        (b : Bool)
        → (if b then m ∷ [] else []) ++ filter (is_sent l.verbose) ms
          ≡ (if b then m ∷ filter (is_sent l.verbose) ms else filter (is_sent l.verbose) ms)
    one_more true = refl
    one_more false = refl
