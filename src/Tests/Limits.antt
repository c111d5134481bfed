-- ===== src/Tests/Limits.antt =====
-- Two objects that differ behind their first 25,000,000 bytes only, and a text that is cut within a
-- letter.
use pmap.Base.{
  ℕ, zero, suc, ◌≤◌, ◌≡◌, ◌↔◌, refl, ap, none, some, [], ◌∷◌, ◌++◌, Bytes, bytes_eq, codes, arith,
  length, length-append, take,
}
use pmap.Base.Dict.{Dict, lookup}
use pmap.Errors.{plain, ok}
use pmap.Go.Io.{Reader}
use pmap.Server.Handler.{
  EventHandler, Storage, attr_key_process_err, gcs_object_size_limit_in_bytes, handle,
}
use pmap.Server.Handler.Routes.{Log}
use pmap.Server.Handler.Limits.{over_other, handle-cut}
use pmap.Server.PubSub.{cut_values, limited_size_message}
use pmap.Server.PubSub.Runes.{IsUtf8, empty, rune, one, two, limited_size_message-IsUtf8_iff}
use pmap.Tests.Handler.{codec, handler, named}

replicate : ℕ → ℕ → Bytes
replicate zero c = []
replicate (suc n) c = c ∷ replicate n c

length-replicate : (n c : ℕ) → length (replicate n c) ≡ n
unfolding replicate
length-replicate zero c = refl
length-replicate (suc n) c = ap suc (length-replicate n c)

take-replicate : (n c : ℕ) (s : Bytes) → take n (replicate n c ++ s) ≡ replicate n c
unfolding replicate take
take-replicate zero c [] = refl
take-replicate zero c (x ∷ s) = refl
take-replicate (suc n) c s = ap (◌∷◌ c) (take-replicate n c s)

abbrev first_bytes : Bytes
first_bytes = replicate gcs_object_size_limit_in_bytes b' '

abbrev whole : Reader
whole = record { content = first_bytes ++ []; failure = none }

-- More follows, and an error of the reader.
abbrev longer : Reader
longer = record { content = first_bytes ++ codes "more"; failure = some (plain (codes "reset")) }

abbrev storage_of : Reader → Storage
storage_of r = record { new_reader = λ bucket object. ok r }

abbrev over_whole : EventHandler Bytes Log
over_whole = record handler { client = storage_of whole }

reaches : (tail : Bytes) → gcs_object_size_limit_in_bytes ≤ length (first_bytes ++ tail)
reaches tail =
    omega
      (arith, length-append first_bytes tail, length-replicate gcs_object_size_limit_in_bytes b' ')

handle-cut_example :
    handle codec
      (over_other codec over_whole (storage_of longer) (named (codes "a")))
      (named (codes "a"))
      []
    ≡ handle codec over_whole (named (codes "a")) []
unfolding lookup bytes_eq
handle-cut_example =
    handle-cut codec over_whole (storage_of longer) (named (codes "a")) [] {b = first_bytes} refl
      refl refl refl (reaches [], take-replicate gcs_object_size_limit_in_bytes b' ' [])
      (reaches (codes "more"), take-replicate gcs_object_size_limit_in_bytes b' ' (codes "more"))

replicate-IsUtf8 : (n : ℕ) → IsUtf8 (replicate n b'a')
unfolding replicate
replicate-IsUtf8 zero = empty
replicate-IsUtf8 (suc n) = rune _ (one (omega arith)) (replicate-IsUtf8 n) refl

-- The error text that is sent ends in a letter of two bytes, the second of which is cut off.
abbrev reason : Bytes
reason = replicate 1023 b'a' ++ ((0xC3 ∷ (0xA9 ∷ [])) ++ [])

abbrev attributes : Dict Bytes
attributes = (attr_key_process_err, reason) ∷ []

limited_size_message-IsUtf8_iff_example :
    (v : Bytes) × (lookup attr_key_process_err (cut_values attributes) ≡ some v)
    × (IsUtf8 v ↔ (length (replicate 1023 b'a') ≡ 1024))
unfolding limited_size_message lookup bytes_eq
limited_size_message-IsUtf8_iff_example =
    limited_size_message-IsUtf8_iff [] attributes attr_key_process_err [] refl refl
      (replicate-IsUtf8 1023) (two (omega arith) (omega arith) (omega arith, omega arith))
      (omega (arith, length-replicate 1023 b'a')) (omega (arith, length-replicate 1023 b'a'))
