-- ===== src/ByteRing.antt =====
-- The ring of bytes inside the emulated stream and message buffers
-- (src/common/emulated_stream_buffer.inl): the fields buf, head and tail are the ring buffer's, over
-- storage of one byte more than the capacity.
pub mod Laws
use micr_osal.Common.{ℕ, ◌+◌, List, Bool, ltb, leb, if◌then◌else◌, add_size, sub_size}
use micr_osal.Ring.{advance_index, copy_in, copy_out}
use micr_osal.RingBuffer.{RingBuffer}

-- The fields of emu_sb_obj and of emu_mb_obj that hold bytes and their places.
pub record ByteRing : Type 0 where
  pub ring : RingBuffer ℕ
  pub ring_size : ℕ
  pub capacity : ℕ

-- What a creation stores: the caller's storage, empty.
abbrev pub over : List ℕ → ℕ → ByteRing
over storage capacity = record {
  ring = record { buf = storage; head = 0; tail = 0 };
  ring_size = add_size capacity 1;
  capacity = capacity;
}

-- sb_available
abbrev pub available : ByteRing → ℕ
available s =
    if leb s.ring.tail s.ring.head
    then sub_size s.ring.head s.ring.tail
    else add_size (sub_size s.ring_size s.ring.tail) s.ring.head

-- sb_free
abbrev pub free : ByteRing → ℕ
free s = sub_size s.capacity (available s)

-- sb_write
unfoldable pub write : ByteRing → List ℕ → ℕ → ByteRing
write s src len =
    let h = s.ring.head in
    record s {
      ring = record (s.ring) {
        buf = copy_in s.ring_size s.ring.buf h src len;
        head = advance_index h len s.ring_size;
      };
    }

-- sb_skip
unfoldable pub skip : ByteRing → ℕ → ByteRing
skip s len = record s {
  ring = record (s.ring) { tail = advance_index s.ring.tail len s.ring_size };
}

-- sb_peek
unfoldable pub peek : ByteRing → ℕ → List ℕ
peek s len = copy_out s.ring_size s.ring.buf s.ring.tail len

-- sb_read: the bytes that go to `buf`, and the ring after.
unfoldable pub read : ByteRing → ℕ → List ℕ × ByteRing
read s len =
    let t = s.ring.tail in
    (
      copy_out s.ring_size s.ring.buf t len,
      record s { ring = record (s.ring) { tail = advance_index t len s.ring_size } },
    )

-- The stores of a reset: the tail becomes the head.
unfoldable pub flush : ByteRing → ByteRing
flush s = record s { ring = record (s.ring) { tail = s.ring.head } }
