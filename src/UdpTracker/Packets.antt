-- ===== src/UdpTracker/Packets.antt =====
-- Where the fields of the packets of src/udp_tracker.cpp stand.
use mathlib.Core.List.{append_assoc, append-nil}
use simpletorrent.Base.{
  ℕ, zero, suc, ◌+◌, ◌-◌, ◌≤◌, ◌≡◌, refl, sym, ap, ◌∙◌, List, [], ◌∷◌, ◌++◌, length, drop,
  overwrite, ok, arith, length-append, length-drop_lem, drop-drop,
}
use simpletorrent.Util.Hex.{hex_decode}
use simpletorrent.Util.ByteOrder.{
  Endian, little, big, le_bytes, to_memory, network_bytes, to_memory-convert_bo,
}
use simpletorrent.Message.{slice}
use simpletorrent.Message.Handshake.{slice-middle}
use simpletorrent.UdpTracker.{initial_connection_id, put, connect_request, announce_request}

-- A write of some bytes over as many at its place.
overwrite-next :
    (front ws rest : List ℕ) (i : ℕ)
    → length front ≡ i
    → length ws ≤ length rest
    → overwrite (front ++ rest) i ws ≡ front ++ (ws ++ drop (length ws) rest)
overwrite-next [] [] [] zero h k = refl
overwrite-next [] [] (x ∷ rest) zero h k = refl
overwrite-next [] (w ∷ ws) [] zero h k = absurd (omega arith)
overwrite-next [] (w ∷ ws) (x ∷ rest) zero h k =
    ap (◌∷◌ w) (overwrite-next [] ws rest zero refl (omega arith))
overwrite-next [] ws rest (suc i) h k = absurd (omega arith)
overwrite-next (x ∷ front) ws rest zero h k = absurd (omega arith)
overwrite-next (x ∷ front) ws rest (suc i) h k =
    ap (◌∷◌ x) (overwrite-next front ws rest i (omega arith) k)

-- Fields that are written at their places, one after the other.
write_fields : List (ℕ × List ℕ) → List ℕ → List ℕ
write_fields [] packet = packet
write_fields ((pos, bytes) ∷ fields) packet = write_fields fields (overwrite packet pos bytes)

-- Each field begins where the one before it ends, the first at `k`; the last one ends at `end`.
AreInOrder : ℕ → List (ℕ × List ℕ) → ℕ → Type 0
AreInOrder k [] end = k ≡ end
AreInOrder k ((pos, bytes) ∷ fields) end = (pos ≡ k) × AreInOrder (k + length bytes) fields end

abbrev pub join : List (ℕ × List ℕ) → List ℕ
join [] = []
join ((pos, bytes) ∷ fields) = bytes ++ join fields

AreInOrder-le : (k : ℕ) (fields : List (ℕ × List ℕ)) (end : ℕ) → AreInOrder k fields end → k ≤ end
unfolding AreInOrder
AreInOrder-le k [] end h = omega arith
AreInOrder-le k ((pos, bytes) ∷ fields) end (p, h) =
    omega (arith, AreInOrder-le (k + length bytes) fields end h)

-- What such writes leave of a packet.
write_fields-join :
    (k end : ℕ) (fields : List (ℕ × List ℕ)) (front rest : List ℕ)
    → length front ≡ k
    → AreInOrder k fields end
    → end ≤ k + length rest
    → write_fields fields (front ++ rest) ≡ front ++ (join fields ++ drop (end - k) rest)
unfolding write_fields AreInOrder
write_fields-join k end [] front rest h o fits =
    let none_ : 0 ≡ end - k = omega arith in ap (λ (n : ℕ). front ++ drop n rest) none_
write_fields-join k end ((pos, bytes) ∷ fields) front rest h (p, o) fits =
    let later = AreInOrder-le (k + length bytes) fields end o in
    let next = front ++ bytes in
    let behind = drop (length bytes) rest in
    let size : length next ≡ k + length bytes = omega (arith, length-append front bytes) in
    let room : end ≤ k + length bytes + length behind =
      omega (arith, length-drop_lem (length bytes) rest) in
    ap (write_fields fields) (
      overwrite-next front bytes rest pos (h ∙ sym p) (omega arith)
      ∙ sym (append_assoc front bytes behind))
    ∙ write_fields-join (k + length bytes) end fields next behind size o room
    ∙ append_assoc front bytes _
    ∙ ap (λ (x : List ℕ). front ++ (bytes ++ (join fields ++ x)))
        (drop-drop (end - (k + length bytes)) (length bytes) (end - k) rest (omega arith))
    ∙ ap (◌++◌ front) (sym (append_assoc bytes (join fields) (drop (end - k) rest)))

zeros_memory :
    (e : Endian) → (to_memory e 8 0 ≡ network_bytes 8 0) × (to_memory e 4 0 ≡ network_bytes 4 0)
unfolding to_memory network_bytes le_bytes
zeros_memory little = (refl, refl)
zeros_memory big = (refl, refl)

-- The sixteen bytes of a request for a connection.
pub connect_request-network :
    (e : Endian) (transaction_id : ℕ)
    → connect_request e transaction_id
      ≡ network_bytes 8 initial_connection_id
        ++ (network_bytes 4 0 ++ network_bytes 4 transaction_id)
unfolding connect_request put network_bytes
connect_request-network e transaction_id =
    rw
      (
        to_memory-convert_bo e 8 initial_connection_id,
        to_memory-convert_bo e 4 0,
        to_memory-convert_bo e 4 transaction_id,
      )
      refl

-- The fields of an announcement that are written, with their places.
abbrev pub announce_fields : ℕ → ℕ → List ℕ → List ℕ → List (ℕ × List ℕ)
announce_fields connection_id transaction_id hash id =
    (0, network_bytes 8 connection_id)
    ∷ (8, network_bytes 4 1)
    ∷ (12, network_bytes 4 transaction_id)
    ∷ (16, hash)
    ∷ (36, id)
    ∷ (56, network_bytes 8 0)
    ∷ (64, network_bytes 8 0)
    ∷ (72, network_bytes 8 0)
    ∷ (80, network_bytes 4 0)
    ∷ (84, network_bytes 4 0)
    ∷ (88, network_bytes 4 200)
    ∷ (92, network_bytes 2 80)
    ∷ []

announce_fields-AreInOrder :
    (connection_id transaction_id : ℕ) (hash id : List ℕ)
    → length hash ≡ 20
    → length id ≡ 20
    → AreInOrder 0 (announce_fields connection_id transaction_id hash id) 94
unfolding AreInOrder network_bytes
announce_fields-AreInOrder connection_id transaction_id hash id p q = (
  refl,
  (
    refl,
    (
      refl,
      (
        refl,
        (
          omega (arith, p, q),
          (
            omega (arith, p, q),
            (
              omega (arith, p, q),
              (
                omega (arith, p, q),
                (
                  omega (arith, p, q),
                  (
                    omega (arith, p, q),
                    (omega (arith, p, q), (omega (arith, p, q), omega (arith, p, q))),
                  ),
                ),
              ),
            ),
          ),
        ),
      ),
    ),
  ),
)

-- The whole of a text of `n` bytes.
pub slice_whole : (bytes : List ℕ) (n : ℕ) → length bytes ≡ n → slice 0 n bytes ≡ ok bytes
slice_whole bytes n h =
    ap (slice 0 n) (sym (append-nil bytes)) ∙ slice-middle [] bytes [] 0 n refl h

-- For a hash that decodes to 20 bytes and an id of 20 bytes, on a machine of either byte order, the
-- 98 bytes of an announcement begin with its fields in network order, one behind the other; the last
-- four are left as they were, and so what the array held before is sent.
pub announce_request-fields :
    (e : Endian) (connection_id transaction_id : ℕ) (info_hash our_id unset hash : List ℕ)
    → hex_decode info_hash ≡ ok hash
    → length hash ≡ 20
    → length our_id ≡ 20
    → length unset ≡ 98
    → announce_request e connection_id transaction_id info_hash our_id unset
      ≡ ok (join (announce_fields connection_id transaction_id hash our_id) ++ drop 94 unset)
unfolding announce_request put write_fields
announce_request-fields e connection_id transaction_id info_hash our_id unset hash d p q r =
    let whole_hash : slice 0 20 hash ≡ ok hash = slice_whole hash 20 p in
    let whole_id : slice 0 20 our_id ≡ ok our_id = slice_whole our_id 20 q in
    let order = announce_fields-AreInOrder connection_id transaction_id hash our_id p q in
    let (long, short) = zeros_memory e in
    rw
      (
        d,
        whole_hash,
        whole_id,
        to_memory-convert_bo e 8 connection_id,
        to_memory-convert_bo e 4 1,
        to_memory-convert_bo e 4 transaction_id,
        to_memory-convert_bo e 4 200,
        to_memory-convert_bo e 2 80,
        long,
        short,
      )
      (ap ok (
        write_fields-join 0 94 (announce_fields connection_id transaction_id hash our_id) [] unset
          refl order (omega arith)))
