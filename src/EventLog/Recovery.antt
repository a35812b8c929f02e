-- ===== src/EventLog/Recovery.antt =====
-- Appending to a log of src/persistence/event_log.cpp and reading it.
use trader_two.Prelude.{
  ℕ, zero, suc, ◌<◌, ◌≤◌, ◌==◌, ==_iff, true, false, not, ◌≡◌, refl, List, [], ◌∷◌, ◌++◌, map,
  length, All, arith, sym, ap, ◌∙◌, if◌then◌else◌, some, length-append,
}
use mathlib.Core.List.{append_assoc, append-nil}
use trader_two.EventLog.{
  PersistedEvent, write_uint, write_payload, write_u64, read_uint, read_text, read_str, read_order,
  read_payload,
}
use trader_two.EventLog.Files.{
  EventLog, open_log, append, read_loop, read_file, read_all, header, magic, version,
}
use trader_two.EventLog.Bytes.{Fits-u64, before_end, read-write_uint, read-write_more}
use trader_two.EventLog.RoundTrip.{Storable, stored, read-write_payload}

-- The bytes of events, one after the other.
abbrev log_bytes : List PersistedEvent → List ℕ
log_bytes [] = []
log_bytes (e ∷ es) = write_payload e ++ log_bytes es

-- Events appended in turn.
abbrev pub append_all : List PersistedEvent → EventLog → EventLog
append_all [] log = log
append_all (e ∷ es) log = append_all es (append e log)

-- An open log with one more event.
abbrev appended : PersistedEvent → EventLog → EventLog
appended e log = record log {
  file = log.file ++ write_payload e;
  bytes_written = length (log.file ++ write_payload e);
}

append-open :
    (e : PersistedEvent) (log : EventLog) → log.is_open ≡ true → append e log ≡ appended e log
unfolding append
append-open e log h = ap (λ b. if not b then log else appended e log) h

append_all-file :
    (es : List PersistedEvent) (log : EventLog)
    → log.is_open ≡ true
    → (append_all es log).file ≡ log.file ++ log_bytes es
append_all-file [] log is_open = sym (append-nil log.file)
append_all-file (e ∷ es) log is_open =
    let step = append-open e log is_open in
    append_all-file es (append e log) (ap (λ l. l.is_open) step ∙ is_open)
    ∙ ap (λ l. l.file ++ log_bytes es) step
    ∙ append_assoc log.file (write_payload e) (log_bytes es)

write_payload-length : (e : PersistedEvent) → 0 < length (write_payload e)
unfolding write_payload write_uint
write_payload-length e = omega arith

log_bytes-length : (es : List PersistedEvent) → length es ≤ length (log_bytes es)
log_bytes-length [] = omega arith
log_bytes-length (e ∷ es) = omega (
  arith,
  log_bytes-length es,
  write_payload-length e,
  length-append (write_payload e) (log_bytes es),
)

-- Nothing is read at the end.
nothing_read : length (read_payload (before_end [])).1.rest ≡ 0
unfolding read_payload read_uint read_text read_str read_order
nothing_read = refl

progress :
    (e : PersistedEvent) (bs : List ℕ) → (length bs == length (write_payload e ++ bs)) ≡ false
progress e bs = ground (
  arith,
  write_payload-length e,
  length-append (write_payload e) bs,
  ==_iff (length bs) (length (write_payload e ++ bs)),
)

read_loop-stored :
    (fuel : ℕ) (es : List PersistedEvent)
    → All Storable es
    → length es < fuel
    → read_loop fuel (before_end (log_bytes es)) ≡ some (map stored es)
unfolding read_loop
read_loop-stored zero es fit enough = absurd (omega (arith, enough))
read_loop-stored (suc fuel) [] fit enough = rw nothing_read refl
read_loop-stored (suc fuel) (e ∷ es) fit enough =
    rw
      (
        read-write_payload e (log_bytes es) fit.0,
        progress e (log_bytes es),
        read_loop-stored fuel es fit.1 (omega (arith, enough)),
      )
      refl

read_file-stored :
    (es : List PersistedEvent)
    → All Storable es
    → read_file (header ++ log_bytes es) ≡ some (map stored es)
unfolding read_file
read_file-stored es fit =
    rw
      (
        read-write_more 8 magic (write_u64 version) (log_bytes es) (Fits-u64 magic (omega arith)),
        read-write_uint 8 version (log_bytes es) (Fits-u64 version (omega arith)),
      )
      (read_loop-stored (suc (length (log_bytes es))) es fit (omega (arith, log_bytes-length es)))

-- Reading a new log gives, in their order, the events that were appended to it, as far as the log
-- writes them: each has its kind, sequence number, time and the payload of its kind, but for the
-- trader of an order and the sequence number and the time of a trade, which are not written and are
-- read as zero. The numbers of the events fit the bytes that they are written in.
pub read_all-append :
    (file : List ℕ) (es : List PersistedEvent)
    → All Storable es
    → (read_all (append_all es (open_log false file))).1 ≡ some (map stored es)
unfolding read_all open_log
read_all-append file es fit =
    ap read_file (append_all-file es (open_log false file) refl) ∙ read_file-stored es fit
