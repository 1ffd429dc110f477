-- ===== src/MessageBuffer/Tests.antt =====
-- A message buffer of eight bytes at work, and the theorems at concrete inputs.

use micr_osal.Common.{none}
use micr_osal.MessageBuffer.Pool.{Pool, create, create_in, fresh}
use micr_osal.Slots
use micr_osal.Error.{out_of_resources}
use micr_osal.Common.{false}
use micr_osal.Common.{
  ℕ, ◌%◌, ◌^◌, ◌≡◌, refl, List, [], ◌∷◌, some, true, arith, replicate, length, take, drop,
  length-replicate,
}
use micr_osal.Error.{ok, timeout}
use micr_osal.Semaphore.{new_semaphore}
use micr_osal.ByteRing
use micr_osal.ByteRing.Laws.{over-IsValid}
use micr_osal.MessageBuffer.{MessageBuffer, run, send_isr, receive_isr, available}
use micr_osal.MessageBuffer.Spec
use micr_osal.MessageBuffer.Spec.{
  Call, Reply, sends, receives, resets, asks, answered, delivered, state,
}
use micr_osal.MessageBuffer.Refine.{Holds, messages_refine}
use micr_osal.MessageBuffer.Header.{send_isr_truncates, held_by}

-- One message of three bytes, across the end of the storage.
abbrev one_message : MessageBuffer
one_message = record {
  ring = record {
    ring = record { buf = 7 ∷ 8 ∷ 9 ∷ 0 ∷ 0 ∷ 0 ∷ 0 ∷ 3 ∷ 0 ∷ []; head = 3; tail = 7 };
    ring_size = 9;
    capacity = 8;
  };
  data_sem = new_semaphore 1 1;
  space_sem = new_semaphore 0 1;
}

abbrev script : List Call
script =
    sends (1 ∷ 2 ∷ [])
    ∷ sends (1 ∷ [])
    ∷ asks
    ∷ receives 2
    ∷ receives 4
    ∷ sends (5 ∷ [])
    ∷ asks
    ∷ resets
    ∷ receives 4
    ∷ []

one_message-Holds : Holds one_message ((7 ∷ 8 ∷ 9 ∷ []) ∷ [])
one_message-Holds = record { ring_ok = omega arith; short = (omega arith, cc); framed = refl }

run-one_message :
    Spec.run 8 ((7 ∷ 8 ∷ 9 ∷ []) ∷ []) script
    ≡ answered timeout
      ∷ answered ok
      ∷ state 3 0
      ∷ delivered 2 (7 ∷ 8 ∷ [])
      ∷ delivered 1 (1 ∷ [])
      ∷ answered ok
      ∷ state 1 3
      ∷ answered ok
      ∷ delivered 0 []
      ∷ []
unfolding Spec.run Spec.step
run-one_message = refl

messages_refine_example : run (some one_message) script ≡ Spec.run 8 ((7 ∷ 8 ∷ 9 ∷ []) ∷ []) script
messages_refine_example =
    messages_refine 8 script (some one_message) ((7 ∷ 8 ∷ 9 ∷ []) ∷ []) (one_message-Holds, refl)
      (omega arith)

-- A message longer than a header can say, in a buffer with room for it.
long_message : List ℕ
long_message = replicate 65540 7

storage : List ℕ
storage = replicate 70001 0

length-long_message : length long_message ≡ 65540
unfolding long_message
length-long_message = length-replicate {A = ℕ} 65540 7

length-storage : length storage ≡ 70001
unfolding storage
length-storage = length-replicate {A = ℕ} 70001 0

abbrev roomy : MessageBuffer
roomy = record {
  ring = ByteRing.over storage 70000;
  data_sem = new_semaphore 0 1;
  space_sem = new_semaphore 0 1;
}

roomy-Holds : Holds roomy []
roomy-Holds = record {
  ring_ok = over-IsValid storage 70000 (omega arith) (omega arith) length-storage;
  short = cc;
  framed = refl;
}

send_isr_truncates_example :
    let (r, h) = send_isr (some roomy) (some long_message) in
    let ((n, got), h') = receive_isr h true 16 in
    (r ≡ ok)
    × (available h ≡ length long_message % 2 ^ 16)
    × (got ≡ take 16 (take (length long_message % 2 ^ 16) long_message))
    × (held_by h' ≡ drop (length long_message % 2 ^ 16) long_message)
send_isr_truncates_example =
    send_isr_truncates roomy long_message 16 roomy-Holds (omega (arith, length-long_message))
      (omega (arith, length-long_message)) (omega arith)

-- Two slots, the first of them taken.
abbrev slots : Pool
slots = record {
  objects = one_message ∷ one_message ∷ [];
  used = true ∷ false ∷ [];
  semaphores = 2;
}

abbrev created : Pool
created = record {
  objects = one_message ∷ fresh (0 ∷ 0 ∷ 0 ∷ 0 ∷ []) 3 ∷ [];
  used = true ∷ true ∷ [];
  semaphores = 4;
}

create-slots : create slots true (some (0 ∷ 0 ∷ 0 ∷ 0 ∷ [])) 3 true true ≡ (ok, some 1, created)
unfolding create create_in Slots.acquire
create-slots = refl

-- The second slot again, where only the second semaphore can be created.
abbrev leaked : Pool
leaked = record {
  objects = one_message ∷ fresh (0 ∷ 0 ∷ 0 ∷ 0 ∷ []) 3 ∷ [];
  used = true ∷ false ∷ [];
  semaphores = 3;
}

create-leaked :
    create slots true (some (0 ∷ 0 ∷ 0 ∷ 0 ∷ [])) 3 false true ≡ (out_of_resources, none, leaked)
unfolding create create_in Slots.acquire Slots.release
create-leaked = refl
