-- ===== src/Server/Send.antt =====
-- src/server/server.h: WSPPServer::send. The connections of websocketpp and the stream buffer of
-- boost are parameters: `connected` says whether get_con_from_hdl finds the handle, `stream max bs`
-- is the data of a `boost::asio::streambuf(max)` after `prepare(max)` and the writing of bs.
use slitherss.Prelude.{ℕ, ◌≤◌, ◌≡◌, Bool, List, length, leb, if◌then◌else◌, arith}
use slitherss.Float.{Float}
use slitherss.Packet.Wire.{Packet, get_size, encode}
use slitherss.Packet.Wire.Fits.{length-encode-le}
use slitherss.Server.Buffer.{
  Outcome, done, too_short, too_long, out_of_bounds, StreambufArray, new_streambuf, contents,
  put_all,
}
use slitherss.Server.Buffer.Contents.{new_streambuf-IsValid, contents-new_streambuf, put_all_lem}

-- What the connection is asked to send. `lost` stands for a write that throws or goes out of bounds.
pub data Delivery : Type 0 where
  no_connection lost : Delivery
  sent : List ℕ → Delivery

abbrev from_array : Outcome StreambufArray → Delivery
from_array (done b) = sent (contents b)
from_array too_short = lost
from_array too_long = lost
from_array out_of_bounds = lost

-- The array of `streambuf_array<128>` is not initialized: `array` is what it holds.
unfoldable pub send :
    {F : Type 0} ⦃float : Float F⦄ {H : Type 0}
    → (H → Bool)
    → (ℕ → List ℕ → List ℕ)
    → List ℕ
    → H
    → Packet F
    → Delivery
send connected stream array hdl p =
    let max = get_size p in
    let small = from_array (put_all (encode p) (new_streambuf array)) in
    if connected hdl
    then (if leb max 128 then small else sent (stream max (encode p)))
    else no_connection

module _ {F : Type 0} ⦃float : Float F⦄ {H : Type 0} (connected : H → Bool)
    (stream : ℕ → List ℕ → List ℕ)
    (stream-law : (max : ℕ) (bs : List ℕ) → length bs ≤ max → stream max bs ≡ bs) (array : List ℕ)
    (array_size : length array ≡ 128) where
  small-sent :
      (p : Packet F)
      → get_size p ≤ 128
      → from_array (put_all (encode p) (new_streambuf array)) ≡ sent (encode p)
  unfolding new_streambuf
  small-sent p h =
      let (b', e, v', c, _, _, _) =
        put_all_lem (encode p) (new_streambuf array) (new_streambuf-IsValid array)
          (omega (arith, length-encode-le p)) in
      rw (e, c, contents-new_streambuf array)

  -- For an array of 128 bytes, and a stream buffer that keeps what fits into it: every packet is
  -- handed to a connection that is there as exactly the bytes of its operator <<, whichever of the two
  -- buffers its get_size selects. Without the connection nothing is sent.
  pub send-eq-encode :
      (hdl : H) (p : Packet F)
      → send connected stream array hdl p
        ≡ (if connected hdl then sent (encode p) else no_connection)
  unfolding send
  send-eq-encode hdl p =
      ground (arith, small-sent p, stream-law (get_size p) (encode p) (length-encode-le p))
