-- ===== src/Emu/Bus/RoundTrip.antt =====
-- What the bus returns after a write to a memory.
use rafi_1st.Base.{
  ℕ, ◌+◌, ◌%◌, ◌^◌, ◌≡◌, refl, ap, ◌∙◌, sym, subst, Bool, true, false, arith, leb, if◌then◌else◌,
  List, [], ◌∷◌, Result, ok, ◌>>=◌, require, assertion, >>=-eq-ok, Bool-cases, inl, inr,
}
use native.Mathlib.Nat.{div-one, add-zero}
use rafi_1st.Emu.Memory.{Memory, ram, rom, load_bytes, store_bytes}
use rafi_1st.Emu.Memory as Memory
use rafi_1st.Emu.Memory.Laws.{load_bytes-store_bytes_within}
use rafi_1st.Emu.Bus.{
  Io, Info, BusState, holds, offset_in, is_address, convert_to_location, replace, read_memory, read,
  write_memory, write,
}

-- A memory returns what was written.
read-write :
    (memory memory' : Memory) (size at value : ℕ)
    → Memory.write memory size at value ≡ ok memory'
    → Memory.read memory' size at ≡ ok (value % 256 ^ size)
unfolding Memory.write Memory.read
read-write (ram capacity body) memory' size at value h =
    written (leb ((at + size) % 2 ^ 64) capacity) refl h
  where
    stored : load_bytes (store_bytes body size at value) size at ≡ value % 256 ^ size
    stored =
        ap (λ (t : ℕ). load_bytes (store_bytes body size at value) size t) (sym (add-zero at))
        ∙ load_bytes-store_bytes_within body size at value 0 size (omega arith)
        ∙ ap (λ (t : ℕ). t % 256 ^ size) (div-one value)

    written :
        (inside : Bool)
        → leb ((at + size) % 2 ^ 64) capacity ≡ inside
        → (require inside assertion >>= λ _. ok (ram capacity (store_bytes body size at value)))
          ≡ ok memory'
        → Memory.read memory' size at ≡ ok (value % 256 ^ size)
    written true inside e =
        let same : ram capacity (store_bytes body size at value) ≡ memory' = cc in
        subst (λ (m : Memory). Memory.read m size at ≡ ok (value % 256 ^ size)) same
          (rw (inside, stored))
    written false inside e = cc
read-write (rom body) memory' size at value h = cc

ok-injective : {A : Type 0} {a a' : A} → ok a ≡ ok a' → a ≡ a'
ok-injective h = cc

-- Replacing a target moves no location.
is_address-replace :
    (infos : List (Info Memory)) (address : ℕ) (memory : Memory) (a size : ℕ)
    → is_address (replace infos address memory) a size ≡ is_address infos a size
unfolding is_address replace
is_address-replace [] address memory a size = refl
is_address-replace (info ∷ infos) address memory a size =
    elim (Bool-cases (holds info address address)) [
      | inl here ↦ rw here
      | inr there ↦ rw (there, is_address-replace infos address memory a size)
    ]

convert-replace :
    (infos : List (Info Memory)) (address : ℕ) (memory : Memory) (info : Info Memory) (offset : ℕ)
    → convert_to_location infos address ≡ ok (info, offset)
    → convert_to_location (replace infos address memory) address
      ≡ ok (record info { target = memory }, offset)
unfolding convert_to_location replace
convert-replace [] address memory info offset h = cc
convert-replace (first ∷ infos) address memory info offset h =
    found (holds first address address) refl
      (λ e. convert-replace infos address memory info offset e) h
  where
    found :
        (here : Bool)
        → holds first address address ≡ here
        → (convert_to_location infos address ≡ ok (info, offset)
            → convert_to_location (replace infos address memory) address
              ≡ ok (record info { target = memory }, offset))
        → (if here then ok (first, offset_in first address) else convert_to_location infos address)
          ≡ ok (info, offset)
        → convert_to_location (replace (first ∷ infos) address memory) address
          ≡ ok (record info { target = memory }, offset)
    found true here later e =
        rw (here, here)
          (ap
            (λ (r : Result (Info Memory × ℕ)). r >>= λ p. ok (record p.0 { target = memory }, p.1))
            e)
    found false here later e = rw (here, here) (later e)

-- After a write that reached a memory, a read of the same bytes returns them, if all of them lie in
-- the memories of the list.
pub read-write_lem :
    {D : Type 0} (io : Io D) (size address value : ℕ) (b b' : BusState D)
    → is_address b.memory_list address 1 ≡ true
    → is_address b.memory_list address size ≡ true
    → write io size address value b ≡ ok b'
    → read io size address b' ≡ ok (value % 256 ^ size, b')
unfolding read write read_memory write_memory
read-write_lem {D} io size address value b b' first whole h =
    let to_memory : write_memory size address value b ≡ ok b' = rw first at h in
    let step = >>=-eq-ok (convert_to_location b.memory_list address) _ to_memory in
    let located = step.1 in
    let step' = >>=-eq-ok (Memory.write step.0.0.target size step.0.1 value) _ step.2 in
    let memory' = step'.0 in
    let written : BusState D = record b { memory_list = replace b.memory_list address memory' } in
    let same : written ≡ b' = ok-injective step'.2 in
    subst (λ (t : BusState D). read io size address t ≡ ok (value % 256 ^ size, t)) same
      (rw (
        is_address-replace b.memory_list address memory' address size,
        whole,
        convert-replace b.memory_list address memory' step.0.0 step.0.1 located,
        read-write step.0.0.target memory' size step.0.1 value step'.1,
      ))
