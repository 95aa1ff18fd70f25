-- ===== src/Tests/Server.antt =====
-- The theorems on src/server at concrete buffers.
use slitherss.Prelude.{
  ℕ, ◌≤◌, ◌+◌, ◌≡◌, refl, true, List, [], ◌∷◌, ◌++◌, arith, ap, zero, suc, ℤ, length, take, drop,
  replicate, length-replicate, if◌then◌else◌, get_elem?,
}
use slitherss.Float.{whole_float}
use slitherss.Packet.Wire.{Packet, move, encode}
use slitherss.Server.Buffer.{
  StreambufArray, done, too_short, out_of_bounds, put_all, contents, consume, underflow, sputc,
}
use slitherss.Server.Buffer.Contents.{
  IsValid, put_all_lem, put_all_overrun, consume_lem, underflow_lem,
}
use slitherss.Server.Buffer.Full.{sputc_full}
use slitherss.Server.Send.{send, sent, no_connection, send-eq-encode}

-- Four bytes, of which three are written and one of these was read.
abbrev buffer : StreambufArray
buffer = record {
  gptr = 1;
  egptr = 3;
  pptr = 3;
  epptr = 4;
  max_size = 4;
  buffer = 10 ∷ 11 ∷ 12 ∷ 0 ∷ [];
}

abbrev full : StreambufArray
full = record {
  gptr = 1;
  egptr = 3;
  pptr = 4;
  epptr = 4;
  max_size = 4;
  buffer = 10 ∷ 11 ∷ 12 ∷ 13 ∷ [];
}

abbrev unread : StreambufArray
unread = record {
  gptr = 0;
  egptr = 0;
  pptr = 3;
  epptr = 4;
  max_size = 4;
  buffer = 10 ∷ 11 ∷ 12 ∷ 0 ∷ [];
}

buffer-IsValid : IsValid buffer
buffer-IsValid = ground arith

full-IsValid : IsValid full
full-IsValid = ground arith

unread-IsValid : IsValid unread
unread-IsValid = ground arith

put_all_example :
    (b' : StreambufArray) × (put_all (13 ∷ []) buffer ≡ done b')
    × IsValid b'
    × (contents b' ≡ contents buffer ++ 13 ∷ [])
    × (b'.gptr ≡ 1)
    × (b'.pptr ≡ 3 + 1)
    × (b'.epptr ≡ 4)
put_all_example = put_all_lem (13 ∷ []) buffer buffer-IsValid (omega arith)

put_all_overrun_example : put_all (13 ∷ 14 ∷ []) unread ≡ too_short
put_all_overrun_example = put_all_overrun (13 ∷ 14 ∷ []) unread unread-IsValid refl (omega arith)

consume_example :
    IsValid (consume 1 buffer) × (contents (consume 1 buffer) ≡ drop 1 (contents buffer))
consume_example = consume_lem 1 buffer buffer-IsValid

underflow_example :
    ((underflow full).0 ≡ get_elem? (contents full) 0)
    × (contents (underflow full).1 ≡ contents full)
    × IsValid (underflow full).1
underflow_example = underflow_lem full full-IsValid

sputc_full_example : sputc 14 full ≡ out_of_bounds
sputc_full_example = sputc_full 14 full full-IsValid refl (omega arith)

abbrev a_move : Packet ℤ
a_move = move (record { client_time = 12; snake_id = 300; x = 21600; y = 4 })

-- A stream buffer that takes the first `max` bytes
send_example :
    send (λ (h : ℕ). true) take (replicate 128 0) 5 a_move
    ≡ (if true then sent (encode a_move) else no_connection)
send_example =
    send-eq-encode (λ (h : ℕ). true) take take_all (replicate 128 0)
      (length-replicate {A = ℕ} 128 0) 5 a_move
  where
    take_all : (max : ℕ) (bs : List ℕ) → length bs ≤ max → take max bs ≡ bs
    take_all zero [] h = refl
    take_all zero (b ∷ bs) h = absurd (omega arith)
    take_all (suc max) [] h = refl
    take_all (suc max) (b ∷ bs) h = ap (◌∷◌ b) (take_all max bs (omega arith))
