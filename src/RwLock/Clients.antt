-- ===== src/RwLock/Clients.antt =====
-- Threads that lock and unlock, interleaved: readers and a writer never hold the lock together.
use micr_osal.Common.{
  ℕ, zero, suc, ◌+◌, ◌^◌, ◌≤◌, ◌<◌, ◌≡◌, refl, sym, ◌⊎◌, inl, inr, List, [], ◌∷◌, Option, none,
  some, true, false, arith, ltb, ◌==◌, not, if◌then◌else◌, length, get_or, set, replicate,
  Bool-cases, ltb→lt, length-set, length-replicate,
}
use micr_osal.RwLock.{
  RwLock, unlocked, read_blocked, write_blocked, read_enter, write_enter, read_unlock, write_unlock,
}

-- What a thread holds, and what it may do next: only what it holds does it unlock.
pub data Hold : Type 0 where
  idle reading writing : Hold

pub data Op : Type 0 where
  read_locks write_locks read_unlocks write_unlocks : Op

abbrev lock_after : RwLock → Option RwLock → RwLock
lock_after rw none = rw
lock_after rw (some rw') = rw'

-- One turn of a thread under the mutex. A thread that is blocked goes on waiting. A thread that
-- holds the lock does not lock it again: the source would count such a reader once more.
unfoldable pub act : Hold → Op → RwLock → Hold × RwLock
act idle read_locks rw = if read_blocked rw then (idle, rw) else (reading, read_enter rw)
act idle write_locks rw = if write_blocked rw then (idle, rw) else (writing, write_enter rw)
act idle read_unlocks rw = (idle, rw)
act idle write_unlocks rw = (idle, rw)
act reading read_unlocks rw = (idle, lock_after rw (read_unlock (some rw)).1)
act reading read_locks rw = (reading, rw)
act reading write_locks rw = (reading, rw)
act reading write_unlocks rw = (reading, rw)
act writing write_unlocks rw = (idle, lock_after rw (write_unlock (some rw)).1)
act writing read_locks rw = (writing, rw)
act writing write_locks rw = (writing, rw)
act writing read_unlocks rw = (writing, rw)

pub record System : Type 0 where
  pub lock : RwLock
  pub threads : List Hold

unfoldable pub step : System → ℕ × Op → System
step s (i, op) =
    let (h, lock') = act (get_or s.threads i idle) op s.lock in
    if ltb i (length s.threads) then record { lock = lock'; threads = set s.threads i h } else s

unfoldable pub run : System → List (ℕ × Op) → System
run s [] = s
run s (x ∷ xs) = run (step s x) xs

-- The number of threads that hold the lock in a way.
abbrev pub is_reading : Hold → ℕ
is_reading idle = 0
is_reading reading = 1
is_reading writing = 0

abbrev pub is_writing : Hold → ℕ
is_writing idle = 0
is_writing reading = 0
is_writing writing = 1

abbrev pub tally : (Hold → ℕ) → List Hold → ℕ
tally f [] = 0
tally f (h ∷ hs) = f h + tally f hs

tally-set :
    (f : Hold → ℕ) (hs : List Hold) (i : ℕ) (h : Hold)
    → i < length hs
    → tally f (set hs i h) + f (get_or hs i idle) ≡ tally f hs + f h
tally-set f [] i h p = absurd (omega arith)
tally-set f (x ∷ hs) zero h p = omega arith
tally-set f (x ∷ hs) (suc i) h p = omega (arith, tally-set f hs i h (omega arith))

tally-le : (hs : List Hold) → tally is_reading hs ≤ length hs
tally-le [] = omega arith
tally-le (idle ∷ hs) = omega (arith, tally-le hs)
tally-le (reading ∷ hs) = omega (arith, tally-le hs)
tally-le (writing ∷ hs) = omega (arith, tally-le hs)

-- The lock counts its readers, and has a writer just when its flag says so.
abbrev pub Counts : RwLock → ℕ → ℕ → Type 0
Counts rw readers writers =
    (rw.reader_count ≡ readers)
    × (((rw.writer_active ≡ true) × (writers ≡ 1) × (readers ≡ 0))
        ⊎ ((rw.writer_active ≡ false) × (writers ≡ 0)))

act-Counts :
    (h : Hold) (op : Op) (rw : RwLock) (r w r' w' : ℕ)
    → Counts rw r w
    → r < 2 ^ 31
    → is_reading h ≤ r
    → is_writing h ≤ w
    → r' + is_reading h ≡ r + is_reading (act h op rw).0
    → w' + is_writing h ≡ w + is_writing (act h op rw).0
    → Counts (act h op rw).1 r' w'
unfolding act read_unlock write_unlock
act-Counts idle read_locks rw r w r' w' c small a b er ew = ground arith
act-Counts idle write_locks rw r w r' w' c small a b er ew = ground arith
act-Counts idle read_unlocks rw r w r' w' c small a b er ew = ground arith
act-Counts idle write_unlocks rw r w r' w' c small a b er ew = ground arith
act-Counts reading read_unlocks rw r w r' w' c small a b er ew = ground arith
act-Counts reading read_locks rw r w r' w' c small a b er ew = ground arith
act-Counts reading write_locks rw r w r' w' c small a b er ew = ground arith
act-Counts reading write_unlocks rw r w r' w' c small a b er ew = ground arith
act-Counts writing write_unlocks rw r w r' w' c small a b er ew = ground arith
act-Counts writing read_locks rw r w r' w' c small a b er ew = ground arith
act-Counts writing write_locks rw r w r' w' c small a b er ew = ground arith
act-Counts writing read_unlocks rw r w r' w' c small a b er ew = ground arith

-- The lock agrees with what the threads hold.
abbrev pub Agrees : System → Type 0
Agrees s =
    (length s.threads < 2 ^ 31)
    × Counts s.lock (tally is_reading s.threads) (tally is_writing s.threads)

tally-get_or :
    (f : Hold → ℕ) (hs : List Hold) (i : ℕ) → f idle ≡ 0 → f (get_or hs i idle) ≤ tally f hs
tally-get_or f [] i z = omega arith
tally-get_or f (h ∷ hs) zero z = omega arith
tally-get_or f (h ∷ hs) (suc i) z = omega (arith, tally-get_or f hs i z)

step-Agrees : (s : System) (x : ℕ × Op) → Agrees s → Agrees (step s x)
unfolding step
step-Agrees s (i, op) a = elim (Bool-cases (ltb i (length s.threads))) [
  | inr out ↦ rw out a
  | inl there ↦
      let h = get_or s.threads i idle in
      let h' = (act h op s.lock).0 in
      let inside = ltb→lt i (length s.threads) there in
      rw there (
        omega (arith, a.0, length-set s.threads i h'),
        act-Counts h op s.lock (tally is_reading s.threads) (tally is_writing s.threads)
            (tally is_reading (set s.threads i h')) (tally is_writing (set s.threads i h')) a.1
            (omega (arith, a.0, tally-le s.threads)) (tally-get_or is_reading s.threads i refl)
            (tally-get_or is_writing s.threads i refl) (tally-set is_reading s.threads i h' inside)
            (tally-set is_writing s.threads i h' inside),
      )
]

run-Agrees : (s : System) (xs : List (ℕ × Op)) → Agrees s → Agrees (run s xs)
unfolding run
run-Agrees s [] a = a
run-Agrees s (x ∷ xs) a = run-Agrees (step s x) xs (step-Agrees s x a)

-- A new lock and its threads.
abbrev pub start : ℕ → System
start n = record { lock = unlocked; threads = replicate n idle }

tally-idle : (f : Hold → ℕ) (n : ℕ) → f idle ≡ 0 → tally f (replicate n idle) ≡ 0
tally-idle f zero z = refl
tally-idle f (suc n) z = omega (arith, tally-idle f n z)

start-Agrees : (n : ℕ) → n < 2 ^ 31 → Agrees (start n)
start-Agrees n h = (
  omega (arith, length-replicate {A = Hold} n idle),
  (sym (tally-idle is_reading n refl), inr (refl, tally-idle is_writing n refl)),
)

-- However fewer than 2 ^ 31 threads that unlock only what they hold interleave on a new lock, at most
-- one of them holds it for writing, and none for reading while one does; the lock counts its readers,
-- and its flag says whether there is a writer.
pub run_exclusive :
    (n : ℕ) (xs : List (ℕ × Op))
    → n < 2 ^ 31
    → let s = run (start n) xs in
      let readers = tally is_reading s.threads in
      let writers = tally is_writing s.threads in
      (writers ≤ 1)
      × ((writers ≡ 0) ⊎ (readers ≡ 0))
      × (s.lock.reader_count ≡ readers)
      × (s.lock.writer_active ≡ not (writers == 0))
run_exclusive n xs h =
    let a = run-Agrees (start n) xs (start-Agrees n h) in
    elim (a.1.1) [
      | inl (busy, one, none_reads) ↦ (omega arith, inr none_reads, a.1.0, rw one busy)
      | inr (free, zero_writes) ↦ (omega arith, inl zero_writes, a.1.0, rw zero_writes free)
    ]
