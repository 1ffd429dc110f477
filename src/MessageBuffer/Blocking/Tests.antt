-- ===== src/MessageBuffer/Blocking/Tests.antt =====
-- A message buffer whose calls block, and the theorems at concrete inputs.
use micr_osal.Common.{◌≡◌, refl, List, [], ◌∷◌, some, true, arith}
use micr_osal.Error.{ok}
use micr_osal.Semaphore.{new_semaphore, give}
use micr_osal.Ring.{copy_in, copy_out, copy_to}
use micr_osal.ByteRing
use micr_osal.ByteRing.Laws.{flush-IsValid, bytes-flush}
use micr_osal.Wait.{Round, AllSteady, wait_until}
use micr_osal.MessageBuffer.{MessageBuffer, put, write_frame, next_len, consume}
use micr_osal.MessageBuffer.Blocking.{Sound, send, receive, try_send, try_receive, wait_space}
use micr_osal.MessageBuffer.Blocking.Send.{MessageSent, send_whole}
use micr_osal.MessageBuffer.Blocking.Receive.{MessageReceived, receive_whole}

-- Two messages, of one byte and of two.
abbrev two_messages : MessageBuffer
two_messages = record {
  ring = record {
    ring = record { buf = 7 ∷ 2 ∷ 0 ∷ 8 ∷ 9 ∷ 0 ∷ 0 ∷ 1 ∷ 0 ∷ []; head = 5; tail = 7 };
    ring_size = 9;
    capacity = 8;
  };
  data_sem = new_semaphore 0 1;
  space_sem = new_semaphore 0 1;
}

two_messages-Sound : Sound two_messages
two_messages-Sound = record {
  messages = (7 ∷ []) ∷ (8 ∷ 9 ∷ []) ∷ [];
  holds = record { ring_ok = omega arith; short = (omega arith, (omega arith, cc)); framed = refl };
  data_binary = refl;
  space_binary = refl;
}

-- Another thread discards what is there.
abbrev drain : MessageBuffer → MessageBuffer
drain s = record s { ring = ByteRing.flush s.ring }

drain-Sound : (s : MessageBuffer) → Sound s → Sound (drain s)
drain-Sound s v = record {
  messages = [];
  holds = record {
    ring_ok = flush-IsValid s.ring v.holds.ring_ok;
    short = cc;
    framed = bytes-flush s.ring v.holds.ring_ok;
  };
  data_binary = v.data_binary;
  space_binary = v.space_binary;
}

abbrev rounds : List (Round MessageBuffer)
rounds = record { now = 105; others = drain } ∷ []

rounds-Steady : AllSteady Sound rounds
rounds-Steady = (drain-Sound, cc)

abbrev sent : MessageBuffer
sent = record {
  ring = record {
    ring = record { buf = 7 ∷ 2 ∷ 0 ∷ 8 ∷ 9 ∷ 2 ∷ 0 ∷ 5 ∷ 6 ∷ []; head = 0; tail = 5 };
    ring_size = 9;
    capacity = 8;
  };
  data_sem = new_semaphore 1 1;
  space_sem = new_semaphore 0 1;
}

send-two_messages :
    send (some two_messages) (some (5 ∷ 6 ∷ [])) 10 100 rounds ≡ some (ok, some sent)
unfolding send wait_until try_send wait_space put write_frame copy_in copy_to give ByteRing.flush
send-two_messages = refl

send_whole_example : MessageSent two_messages (5 ∷ 6 ∷ []) rounds ok (some sent)
send_whole_example =
    send_whole two_messages (5 ∷ 6 ∷ []) 10 100 rounds ok (some sent) two_messages-Sound
      rounds-Steady send-two_messages

abbrev received : MessageBuffer
received = record {
  ring = record {
    ring = record { buf = 7 ∷ 2 ∷ 0 ∷ 8 ∷ 9 ∷ 0 ∷ 0 ∷ 1 ∷ 0 ∷ []; head = 5; tail = 1 };
    ring_size = 9;
    capacity = 8;
  };
  data_sem = new_semaphore 1 1;
  space_sem = new_semaphore 1 1;
}

receive-two_messages :
    receive (some two_messages) true 4 10 100 rounds ≡ some ((1, 7 ∷ []), some received)
unfolding receive wait_until try_receive next_len consume give copy_out ByteRing.peek ByteRing.skip
    ByteRing.read
receive-two_messages = refl

receive_whole_example : MessageReceived two_messages 4 rounds (1, 7 ∷ []) (some received)
receive_whole_example =
    receive_whole two_messages 4 10 100 rounds (1, 7 ∷ []) (some received) two_messages-Sound
      rounds-Steady (omega arith) receive-two_messages
