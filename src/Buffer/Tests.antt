-- ===== src/Buffer/Tests.antt =====
-- The theorems on buffers, at concrete buffers and with an allocator that always has memory.
use libxio.Base.{replicate, some, ◌++◌, ◌≡◌, refl, [], ◌∷◌, done, Returns, arith}
use libxio.Memory.{heap}
use libxio.Buffer.{
  contents, empty_buffer, reallocate, resize, Buffer, Policy, set_capacity, reserve, copy_end,
  push_back,
}
use libxio.Buffer.Inv.{Fitted, set_capacity-Fitted}
use libxio.Buffer.Valid.{IsValid}
use libxio.Buffer.Append.{Pushed, push_back-Pushed}
use libxio.Buffer.Printf.{printf, printf_loop, snprintf, grow_or_stop}
use libxio.Buffer.Printf.Printed.{printf-Printed}
use libxio.Buffer.Slice.{Store, put, slice_of, slice_ref_from}
use libxio.Buffer.Slice.Stable.{part, push_back-slice}
use libxio.BufferRef.{text}
use libxio.Concrete.{plain_realloc, plain_realloc-IsRealloc, plain_realloc-grants}

abbrev three : Buffer
three = record { block = heap (1 ∷ 2 ∷ 3 ∷ 0 ∷ []); size = 3; capacity = 4 }

three-IsValid : IsValid three
three-IsValid = record { owned = refl; within = omega arith; bounded = omega arith }

-- Appends by the executable definitions, within the capacity and past it.
push_back_fits :
    push_back plain_realloc Policy.immutable (9 ∷ []) three
    ≡ done (record { block = heap (1 ∷ 2 ∷ 3 ∷ 9 ∷ []); size = 4; capacity = 4 })
unfolding push_back reserve copy_end
push_back_fits = refl

push_back_full : push_back plain_realloc Policy.immutable (8 ∷ 9 ∷ []) three ≡ done three
unfolding push_back reserve
push_back_full = refl

set_capacity-Fitted_example :
    Returns (Fitted plain_realloc three 10) (set_capacity plain_realloc 10 three)
set_capacity-Fitted_example =
    set_capacity-Fitted plain_realloc plain_realloc-IsRealloc three three-IsValid 10 (omega arith)
      (omega arith)

push_back-Pushed_example :
    Returns
      (Pushed plain_realloc Policy.mutable three (8 ∷ 9 ∷ []))
      (push_back plain_realloc Policy.mutable (8 ∷ 9 ∷ []) three)
push_back-Pushed_example =
    push_back-Pushed plain_realloc Policy.mutable (8 ∷ 9 ∷ []) three plain_realloc-IsRealloc
      three-IsValid (omega arith)

-- Two digits and a NUL need more room than a new buffer has.
printf_grows :
    printf plain_realloc Policy.mutable 2 1 (some (4 ∷ 5 ∷ 6 ∷ [])) empty_buffer
    ≡ done (record { block = heap (4 ∷ 5 ∷ 6 ∷ 0 ∷ replicate 4092 0); size = 3; capacity = 4096 })
unfolding printf printf_loop snprintf grow_or_stop reserve set_capacity reallocate resize
printf_grows = refl

printf-Printed_example :
    Returns
      (λ b'. IsValid b' × (contents b' ≡ contents three ++ (4 ∷ 5 ∷ 6 ∷ [])))
      (printf plain_realloc Policy.mutable 2 2 (some (4 ∷ 5 ∷ 6 ∷ [])) three)
printf-Printed_example =
    printf-Printed plain_realloc 2 0 (4 ∷ 5 ∷ 6 ∷ []) three plain_realloc-IsRealloc
      plain_realloc-grants three-IsValid (omega arith) (omega arith)

-- The last two bytes of the buffer at 7.
abbrev store : Store
store p = three

push_back-slice_example :
    Returns
      (λ b'.
        Returns (λ v. text v ≡ part three 1 2) (slice_ref_from (put store 7 b') (slice_of 7 1 2) 0))
      (push_back plain_realloc Policy.mutable (8 ∷ 9 ∷ []) three)
push_back-slice_example =
    push_back-slice plain_realloc Policy.mutable (8 ∷ 9 ∷ []) store 7 1 2 plain_realloc-IsRealloc
      three-IsValid (omega arith) (omega arith)
