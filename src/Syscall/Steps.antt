-- ===== src/Syscall/Steps.antt =====
-- Each system call keeps the heap of the kernel, kernel/syscalls/syscall.cpp.
use tetra_os.Base.{
  ℕ, zero, suc, ◌+◌, ◌≤◌, ◌<◌, ◌≡◌, ◌⊎◌, refl, sym, subst, ◌∙◌, inl, inr, Option, none, some, List,
  [], ◌∷◌, append_nil, ◌==◌, true, false, Bool-cases, arith,
}
use tetra_os.Memory.{Bytes, u64, store8, store8-outside}
use tetra_os.Copy.{memcpy, memcpy-outside}
use tetra_os.Kernel.{Kernel, virtual_offset}
use tetra_os.Heap.Invariant.{IsHeap}
use tetra_os.Heap.Take.{IsAllocated}
use tetra_os.Heap.Alloc.{HasRoom, kalloc_lem}
use tetra_os.Heap.Write.{write-IsHeap}
use tetra_os.Print.{number, text}
use tetra_os.Ext2.{string_length}
use tetra_os.Syscall.{
  Machine, put_chars, set_mem, printf, read, string_at, sys_write, chars_at, and_then, copy_into,
  sys_getcwd,
}
use tetra_os.Syscall.Kept.{
  IsServed, IsServed-trans, put-IsServed, aside-IsServed, user-IsServed, printf-IsServed,
  and_then-IsServed,
}

module _ (rest buffer counter n : ℕ) (s s' : Machine) (c : ℕ) (cs : List ℕ)
    (e : s.input ≡ c ∷ cs) where
  read_end :
      (c == 13) ≡ true
      → read (suc rest) buffer counter s ≡ some (n, s')
      → put_chars
          (10 ∷ [])
          (set_mem (store8 s.kernel.mem (buffer + counter) 0) (record s { input = cs }))
        ≡ s'
  unfolding read
  read_end end runs = cc (rw (e, end) at runs)

  read_more :
      (c == 13) ≡ false
      → read (suc rest) buffer counter s ≡ some (n, s')
      → read rest buffer (counter + 1) (
          put_chars
            (c ∷ [])
            (set_mem (store8 s.kernel.mem (buffer + counter) c) (record s { input = cs })))
        ≡ some (n, s')
  unfolding read
  read_more more runs = rw (e, more) at runs

module _ (limit base : ℕ) where
  pub read-IsServed :
      (rest buffer counter n : ℕ) (s s' : Machine) (input : List ℕ)
      → s.input ≡ input
      → IsHeap s.kernel limit base
      → buffer + counter + rest ≤ virtual_offset
      → read rest buffer counter s ≡ some (n, s')
      → IsServed limit base s s'
  unfolding read
  read-IsServed zero buffer counter n s s' input e v low runs =
      subst (IsServed limit base s) (cc (runs))
        (aside-IsServed limit base s v s.input s.next_descriptor)
  read-IsServed (suc rest) buffer counter n s s' [] e v low runs = cc (rw e at runs)
  read-IsServed (suc rest) buffer counter n s s' (c ∷ cs) e v low runs =
      let typed : Machine = record s { input = cs } in
      let one = aside-IsServed limit base s v cs s.next_descriptor in
      let byte : (x : ℕ)
          → IsServed limit base typed (set_mem (store8 s.kernel.mem (buffer + counter) x) typed) =
        λ x.
          user-IsServed limit base typed v (store8 s.kernel.mem (buffer + counter) x)
            (λ b h. store8-outside s.kernel.mem (buffer + counter) x b (omega arith)) in
      let put_after : (x y : ℕ)
          → IsServed limit base s
              (put_chars (y ∷ []) (set_mem (store8 s.kernel.mem (buffer + counter) x) typed)) =
        λ x y.
          let stored = set_mem (store8 s.kernel.mem (buffer + counter) x) typed in
          IsServed-trans limit base s typed (put_chars (y ∷ []) stored) one (
            IsServed-trans limit base typed stored (put_chars (y ∷ []) stored) (byte x)
              (put-IsServed limit base stored (byte x).heap (y ∷ []))) in
      elim (Bool-cases (c == 13)) [
        | inl end ↦
            let done = read_end rest buffer counter n s s' c cs e end runs in
            subst (IsServed limit base s) done (put_after 0 10)
        | inr more ↦
            let next : Machine =
              put_chars (c ∷ []) (set_mem (store8 s.kernel.mem (buffer + counter) c) typed) in
            let first = put_after c c in
            let rest_served =
              read-IsServed rest buffer (counter + 1) n next s' cs refl first.heap (omega arith)
                (read_more rest buffer counter n s s' c cs e more runs) in
            IsServed-trans limit base s next s' first rest_served
      ]

  -- The text of a write is in a new block of the heap, and is then put.
  module _ (fuel n from size : ℕ) (s : Machine) (v : IsHeap s.kernel limit base) (k : Kernel)
      (done : IsAllocated s.kernel k limit base (s.kernel.free_list + 16) (size + 1) n) where
    abbrev filled : Bytes
    filled =
        store8 (memcpy k.mem (s.kernel.free_list + 16) from size) (s.kernel.free_list + 16 + size) 0

    abbrev stored : Machine
    stored = record s { kernel = record k { mem = filled } }

    filled-outside :
        (b : ℕ)
        → (b < s.kernel.free_list + 16) ⊎ (s.kernel.free_list + 16 + size < b)
        → filled b ≡ k.mem b
    filled-outside b h =
        store8-outside (memcpy k.mem (s.kernel.free_list + 16) from size)
          (s.kernel.free_list + 16 + size) 0 b (omega arith)
        ∙ memcpy-outside k.mem (s.kernel.free_list + 16) from size b (omega arith)

    stored-IsServed : IsServed limit base s stored
    stored-IsServed = record {
      heap =
          write-IsHeap k limit base done.heap filled
            (λ b h. filled-outside b (inl (omega (arith, v.base_high, v.behind))))
            (λ b h. filled-outside b (inr (omega (arith, done.next_list))));
      grows = omega (arith, done.next_list);
      blocks = λ b high below. filled-outside b (inl (omega arith)) ∙ done.kept b high below;
      text = [];
      put = sym (append_nil s.output);
    }

    text_put :
        (o : Option (List ℕ)) (s' : Machine)
        → elim o [ none ↦ none | some chars ↦ printf (37 ∷ 115 ∷ []) (text chars ∷ []) stored ]
          ≡ some s'
        → IsServed limit base s s'
    text_put none s' e = cc
    text_put (some chars) s' e = IsServed-trans limit base s stored s' stored-IsServed (
        printf-IsServed limit base stored stored-IsServed.heap (37 ∷ 115 ∷ []) (text chars ∷ []) s'
          e)

  pub write-IsServed :
      (fuel n from size : ℕ) (s s' : Machine)
      → limit ≤ fuel
      → IsHeap s.kernel limit base
      → n < fuel
      → HasRoom s.kernel limit n (size + 1)
      → sys_write fuel from size s ≡ some s'
      → IsServed limit base s s'
  unfolding sys_write
  write-IsServed fuel n from size s s' enough v rounds room runs =
      let (k, alloc, done) =
        kalloc_lem fuel limit base enough s.kernel v (size + 1) n rounds room in
      let same : u64 (size + 1) ≡ size + 1 =
        omega (arith, room.reach, v.covers, room.addresses, v.base_high, v.behind) in
      text_put fuel n from size s v k done
        (string_at (size + 1) (filled fuel n from size s v k done) (s.kernel.free_list + 16)) s'
        (rw (same, alloc, sys_write) at runs)

  string_length-lt :
      (fuel i n : ℕ) (path : ℕ → ℕ) → string_length fuel path i ≡ some n → n < i + fuel
  unfolding string_length
  string_length-lt zero i n path e = cc
  string_length-lt (suc fuel) i n path e = elim (Bool-cases (path i == 0)) [
    | inl end ↦ (let here : i ≡ n = cc (rw end at e) in omega (arith, here))
    | inr more ↦
        (let rest = string_length-lt fuel (i + 1) n path (rw more at e) in omega (arith, rest))
  ]

  copied :
      (fuel path_string buffer : ℕ) (s s' : Machine) (o : Option ℕ)
      → IsHeap s.kernel limit base
      → buffer + fuel ≤ virtual_offset
      → ((n : ℕ) → o ≡ some n → n < fuel)
      → elim o [
        | none ↦ none
        | some size ↦
            and_then
              (printf (115 ∷ 105 ∷ 122 ∷ 101 ∷ 58 ∷ 32 ∷ 37 ∷ 105 ∷ 10 ∷ []) (number size ∷ []) s)
              (λ s2. some (set_mem (memcpy s2.kernel.mem buffer path_string size) s2))
      ]
        ≡ some s'
      → IsServed limit base s s'
  copied fuel path_string buffer s s' none v low short e = cc
  copied fuel path_string buffer s s' (some size) v low short e =
      let few = short size refl in
      and_then-IsServed limit base s s'
        (printf (115 ∷ 105 ∷ 122 ∷ 101 ∷ 58 ∷ 32 ∷ 37 ∷ 105 ∷ 10 ∷ []) (number size ∷ []) s)
        (λ s2. some (set_mem (memcpy s2.kernel.mem buffer path_string size) s2)) e
        (λ s1 e1. printf-IsServed limit base s v _ _ s1 e1)
        (λ s1 v1 e1.
          (let same : set_mem (memcpy s1.kernel.mem buffer path_string size) s1 ≡ s' = cc (e1) in
            subst (IsServed limit base s1) same (
              user-IsServed limit base s1 v1 (memcpy s1.kernel.mem buffer path_string size)
                (λ b h. memcpy-outside s1.kernel.mem buffer path_string size b (omega arith)))))

  copy-IsServed :
      (fuel path_string buffer : ℕ) (s s' : Machine)
      → IsHeap s.kernel limit base
      → buffer + fuel ≤ virtual_offset
      → copy_into fuel path_string buffer s ≡ some s'
      → IsServed limit base s s'
  unfolding copy_into
  copy-IsServed fuel path_string buffer s s' v low e =
      and_then-IsServed limit base s s' _ _ e (λ s1 e1. printf-IsServed limit base s v _ _ s1 e1)
        (λ s1 v1 e1.
          copied fuel path_string buffer s1 s'
            (string_length fuel (chars_at s1.kernel.mem path_string) 0) v1 low
            (λ n e2.
              omega (arith, string_length-lt fuel 0 n (chars_at s1.kernel.mem path_string) e2))
            e1)

  pub getcwd-IsServed :
      (fuel buffer : ℕ) (s s' : Machine)
      → IsHeap s.kernel limit base
      → buffer + fuel ≤ virtual_offset
      → sys_getcwd fuel buffer s ≡ some s'
      → IsServed limit base s s'
  unfolding sys_getcwd
  getcwd-IsServed fuel buffer s s' v low e =
      let put : (s1 : Machine)
          → IsHeap s1.kernel limit base
          → (cs : List ℕ) (s2 : Machine) → printf cs [] s1 ≡ some s2
          → IsServed limit base s1 s2 =
        λ s1 v1 cs s2 e1. printf-IsServed limit base s1 v1 cs [] s2 e1 in
      and_then-IsServed limit base s s' _ _ e (put s v _) (λ s1 v1 e1.
        and_then-IsServed limit base s1 s' _ _ e1 (put s1 v1 _) (λ s2 v2 e2.
          and_then-IsServed limit base s2 s' _ _ e2 (put s2 v2 _) (λ s3 v3 e3.
            and_then-IsServed limit base s3 s' _ _ e3 (put s3 v3 _) (λ s4 v4 e4.
              and_then-IsServed limit base s4 s' _ _ e4
                (λ s5 e5. copy-IsServed fuel s4.current_working_directory buffer s4 s5 v4 low e5)
                (λ s5 v5 e5. put s5 v5 _ s' e5)))))
