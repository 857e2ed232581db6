-- ===== src/Recording/Frames.antt =====
-- The frames of a recording: their time stamps and files.
use chrome_live.Base.{
  ℕ, zero, suc, ==-refl, ◌⊎◌, ◌+◌, ◌≤◌, ◌≡◌, refl, true, false, List, [], ◌∷◌, ◌++◌, length, arith,
  ap, ◌∙◌, nat_key, string_key, ◌==◌, inl, inr, length-append,
}
use chrome_live.Dict.{elem}
use chrome_live.Recording.{ActiveRecording, FrameWrite, written, failed, store_frame, add_file}

-- the numbers below a bound, in order
abbrev pub upto : ℕ → List ℕ
upto zero = []
upto (suc n) = upto n ++ n ∷ []

-- A recording has a time for each frame that was written, and its files are those frames' and at most
-- one more, which a failed write has left under the next number.
pub record IsConsistent (recording : ActiveRecording) : Type 0 where
  pub timed : length recording.frame_times ≡ recording.frame_count
  pub filed :
      (recording.files ≡ upto recording.frame_count)
      ⊎ (recording.files ≡ upto (suc recording.frame_count))

elem-append_self : (n : ℕ) (xs : List ℕ) → elem n (xs ++ n ∷ []) ≡ true
unfolding elem
elem-append_self n [] = ground (arith, ==-refl n)
elem-append_self n (x ∷ xs) = ground (arith, elem-append_self n xs)

elem-append_other :
    (n k : ℕ) (xs : List ℕ) → (k == n) ≡ false → elem n xs ≡ false → elem n (xs ++ k ∷ []) ≡ false
unfolding elem
elem-append_other n k [] other h = ground (arith, other)
elem-append_other n k (x ∷ xs) other h = ground (arith, elem-append_other n k xs other, h)

elem-upto : (n k : ℕ) → k ≤ n → elem n (upto k) ≡ false
unfolding elem
elem-upto n zero h = refl
elem-upto n (suc k) h = elem-append_other n k (upto k) (ground arith) (elem-upto n k (omega arith))

add_file-upto :
    (recording : ActiveRecording)
    → IsConsistent recording
    → add_file recording.frame_count recording.files ≡ upto (suc recording.frame_count)
add_file-upto recording h = elim h.filed [
  | inl all ↦ rw all (rw (elem-upto recording.frame_count recording.frame_count (omega arith)) refl)
  | inr more ↦
      rw more (rw (elem-append_self recording.frame_count (upto recording.frame_count)) refl)
]

pub store_frame-IsConsistent :
    (write : FrameWrite) (now : ℕ) (recording : ActiveRecording)
    → IsConsistent recording
    → IsConsistent (store_frame write now recording)
unfolding store_frame
store_frame-IsConsistent written now recording h =
    let next : suc recording.frame_count ≡ recording.frame_count + 1 = omega arith in
    record {
      timed = omega (arith, length-append recording.frame_times (now ∷ []), h.timed);
      filed = inl (add_file-upto recording h ∙ ap upto next);
    }
store_frame-IsConsistent (failed true) now recording h = record {
  timed = h.timed;
  filed = inr (add_file-upto recording h);
}
store_frame-IsConsistent (failed false) now recording h = h
