-- ===== src/Runs/Wire.antt =====
-- sail/wire: a two-hop circuit, a cell, a frame and a resume proof.
use sailnet.Runs.Toys.{tagger, unused, keys}
use sailnet.Common.{◌≡◌, refl, arith, ◌++◌, [], ◌∷◌, true, false}
use sailnet.Common.{All, length-replicate, replicate, Bytes}
use sailnet.Wire.Cell.{Cell, marshal, read_cell, got}
use sailnet.Wire.Cell.RoundTrip.{read_cell-marshal}
use sailnet.Wire.Replay.{accept}
use sailnet.Wire.Replay.Once.{Distinct, accept_all, accept_all-Distinct}
use sailnet.Wire.Onion.{HopKeys, onion_seal, peel_backward, terminal, ok}
use sailnet.Wire.Onion.Forward.{deliver, deliver-onion_seal}
use sailnet.Wire.Onion.Backward.{send_back, peel_backward-send_back}
use sailnet.Wire.Ws.{write_frame, read_frame, payload}
use sailnet.Wire.Ws.Frames.{IsByte, read_frame-write_frame}

deliver-onion_seal_example :
    (deliver tagger
      (keys 1 ∷ keys 2 ∷ [])
      (onion_seal tagger (keys 1 ∷ keys 2 ∷ []) 7 300 (72 ∷ 105 ∷ [])).1).1
    ≡ ok (terminal 7 300 (72 ∷ 105 ∷ []))
deliver-onion_seal_example =
    deliver-onion_seal tagger (keys 1) (keys 2 ∷ []) (keys 1 ∷ keys 2 ∷ []) 7 300 (72 ∷ 105 ∷ [])
      (
        record { same_key = refl; behind = omega arith; more = omega arith },
        (record { same_key = refl; behind = omega arith; more = omega arith }, tt),
      )
      (omega arith)

peel_backward-send_back_example :
    (peel_backward tagger
      (keys 1 ∷ keys 2 ∷ [])
      (send_back tagger (keys 1 ∷ keys 2 ∷ []) 9 4 (1 ∷ []))).1
    ≡ ok (1, 9, 4, 1 ∷ [])
peel_backward-send_back_example =
    peel_backward-send_back tagger (keys 1 ∷ keys 2 ∷ []) (keys 1 ∷ keys 2 ∷ []) 9 4 (1 ∷ [])
      (
        record { same_key = refl; behind = omega arith; more = omega arith },
        record { same_key = refl; behind = omega arith; more = omega arith },
      )
      (omega arith) (omega arith)

accept_all-Distinct_example : Distinct (accept_all unused (5 ∷ 3 ∷ 5 ∷ 3 ∷ [])).1
accept_all-Distinct_example = accept_all-Distinct unused (5 ∷ 3 ∷ 5 ∷ 3 ∷ [])

abbrev after_five : HopKeys
after_five = record (keys 1) { fwd_win = (accept unused 5).0 }

abbrev hello : Cell
hello = record { circ_id = 70000; cmd = 2; stream_id = 9; payload = 1 ∷ 2 ∷ [] }

read_cell-marshal_example :
    read_cell (marshal (λ k. replicate k 0) hello ++ (5 ∷ [])) ≡ got hello (5 ∷ [])
read_cell-marshal_example =
    read_cell-marshal (λ k. replicate k 0) (λ k. length-replicate k 0) hello (5 ∷ [])
      (record { circ = omega arith; stream = omega arith; fits = omega arith }) (omega arith)

abbrev mask : Bytes
mask = 1 ∷ 2 ∷ 3 ∷ 4 ∷ []

mask_bytes : All IsByte mask
mask_bytes = (omega arith, (omega arith, (omega arith, (omega arith, tt))))

read_frame-write_frame_example :
    read_frame false mask (write_frame true mask 2 (72 ∷ 105 ∷ []) ++ (9 ∷ []))
    ≡ payload (72 ∷ 105 ∷ []) (9 ∷ [])
read_frame-write_frame_example =
    read_frame-write_frame true false mask mask 2 (72 ∷ 105 ∷ []) (9 ∷ []) (refl, mask_bytes)
      (omega arith, (omega arith, tt)) (omega arith) (omega arith)
