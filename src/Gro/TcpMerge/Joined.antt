-- ===== src/Gro/TcpMerge/Joined.antt =====
-- What the copies of `coalesce_tcp_packets` leave in the buffers.
use tun_rs.Base.{
  ok_eq, ℕ, zero, suc, ◌+◌, ◌-◌, ◌≤◌, ◌≡◌, ◌≢◌, refl, sym, ap, ◌∙◌, subst, Bool, true, false, List,
  [], ◌∷◌, ◌++◌, length, length-take, length-drop, set, get_or, take, take-all, drop, put,
  replicate, bit_or, ok, ◌>>=◌, at, slice, write, write_at, bind_ok, arith, if◌then◌else◌,
}
use tun_rs.Gso.{tcp_flags_offset}
use tun_rs.Gro.{ExpandBuffer, IsExpandBuffer, nth, tcp_flag_psh}
use tun_rs.Gro.Flow.{TcpGroItem}
use tun_rs.Gro.TcpMerge.{swap, prepend_payload, append_payload}
use tun_rs.Gro.Merge.Joined.{nth-set, nth-set_other}

length-replicate : (n v : ℕ) → length (replicate n v) ≡ n
length-replicate zero v = refl
length-replicate (suc n) v = ap suc (length-replicate n v)

put_whole : (zs src : List ℕ) → length src ≡ length zs → put zs 0 src ≡ src
put_whole [] [] e = refl
put_whole [] (s ∷ src) e = absurd (omega arith)
put_whole (z ∷ zs) [] e = absurd (omega arith)
put_whole (z ∷ zs) (s ∷ src) e = ap (λ t. s ∷ t) (put_whole zs src (omega arith))

-- A write behind `xs` that fills what stands there.
put_behind :
    (xs zs src : List ℕ) → length src ≡ length zs → put (xs ++ zs) (length xs) src ≡ xs ++ src
put_behind [] zs src e = put_whole zs src e
put_behind (x ∷ xs) zs [] e = ap (λ t. x ∷ t) (put_behind xs zs [] e)
put_behind (x ∷ xs) zs (s ∷ src) e = ap (λ t. x ∷ t) (put_behind xs zs (s ∷ src) e)

write-put :
    (l : List ℕ) (k : ℕ) (src : List ℕ) {out : List ℕ} → write l k src ≡ ok out → put l k src ≡ out
unfolding write
write-put l k src h = ground arith

slice-take :
    (l : List ℕ) (lo hi : ℕ) {out : List ℕ}
    → slice l lo hi ≡ ok out
    → (hi ≤ length l) × (lo ≤ hi) × (take (hi - lo) (drop lo l) ≡ out)
unfolding slice
slice-take l lo hi h = ground arith

at-get_or : (l : List ℕ) (i : ℕ) {v : ℕ} → at l i ≡ ok v → v ≡ get_or l i 0
unfolding at
at-get_or l i h = ground arith

swap_lem {ℓ} :
    {A : Type ℓ} (xs : List A) (i j : ℕ) (out : List A)
    → i ≢ j
    → swap xs i j ≡ ok out
    → (a : A) × (b : A) × (nth xs i ≡ ok a)
      × (nth xs j ≡ ok b)
      × (nth out i ≡ ok b)
      × (nth out j ≡ ok a)
unfolding swap
swap_lem xs i j out other h =
    let (a, at_i, h1) = bind_ok (nth xs i) _ h in
    let (b, at_j, h2) = bind_ok (nth xs j) _ h1 in
    let same : out ≡ set (set xs i b) j a = sym (ok_eq h2) in
    (
      a,
      b,
      at_i,
      at_j,
      ap (λ o. nth o i) same
          ∙ nth-set_other (set xs i b) j i a (λ p. other (sym p))
          ∙ nth-set xs i a b at_i,
      ap (λ o. nth o j) same ∙ nth-set (set xs i b) j b a (nth-set_other xs i j b other ∙ at_j),
    )

-- What an append of the payload leaves in front of it: the PSH flag is set if the packet has it.
abbrev pub flagged_front : List ℕ → ℕ → Bool → List ℕ
flagged_front bytes flags_at psh_set =
    if psh_set
    then put bytes flags_at (bit_or (get_or bytes flags_at 0) tcp_flag_psh ∷ [])
    else bytes

module _ {B : Type 0} (e : ExpandBuffer B) (laws : IsExpandBuffer e) (bufs_offset : ℕ) where
  -- A buffer grown by `n` zeros and filled with `n` bytes.
  grown_filled :
      (b : B) (n k : ℕ) (src out : List ℕ)
      → length src ≡ n
      → k ≡ length (e.as_ref b)
      → write (e.as_ref (e.buf_resize b (length (e.as_ref b) + n) 0)) k src ≡ ok out
      → out ≡ e.as_ref b ++ src
  grown_filled b n k src out size at_end h =
      let bytes = e.as_ref b in
      let zeros : length bytes + n - length bytes ≡ n = omega arith in
      let grown : e.as_ref (e.buf_resize b (length bytes + n) 0) ≡ bytes ++ replicate n 0 =
        laws.as_ref-resize b (length bytes + n) 0
        ∙ rw (zeros, take-all (length bytes + n) bytes (omega arith)) refl in
      sym (write-put (e.as_ref (e.buf_resize b (length bytes + n) 0)) k src h)
      ∙ rw (grown, at_end)
          (put_behind bytes (replicate n 0) src (size ∙ sym (length-replicate n 0)))

  -- When a prepend returns, for two different buffers of which that of the packet ends with the packet,
  -- the item's place holds the packet's buffer followed by the `extend_by` bytes behind the headers of
  -- what the item's place held, and the packet's place holds the item's old buffer.
  pub prepend_payload_lem :
      (bufs : List B) (item_index pkt_bufs_index pkt_len headers_len extend_by : ℕ) (out : List B)
      → item_index ≢ pkt_bufs_index
      → ((b : B) → nth bufs pkt_bufs_index ≡ ok b → length (e.as_ref b) ≡ bufs_offset + pkt_len)
      → prepend_payload e bufs_offset bufs item_index pkt_bufs_index pkt_len headers_len extend_by
        ≡ ok out
      → (item_buf : B) × (pkt_buf : B) × (joined : B) × (nth bufs item_index ≡ ok item_buf)
        × (nth bufs pkt_bufs_index ≡ ok pkt_buf)
        × (nth out item_index ≡ ok joined)
        × (nth out pkt_bufs_index ≡ ok item_buf)
        × (e.as_ref joined
            ≡ e.as_ref pkt_buf
              ++ take extend_by (drop (bufs_offset + headers_len) (e.as_ref item_buf)))
  unfolding prepend_payload
  prepend_payload_lem bufs i k pkt_len headers_len extend_by out other ends h =
      let (pkt_buf, at_pkt, h1) = bind_ok (nth bufs k) _ h in
      let grown = e.buf_resize pkt_buf (length (e.as_ref pkt_buf) + extend_by) 0 in
      let bufs1 = set bufs k grown in
      let (item_buf, at_item, h2) = bind_ok (nth bufs1 i) _ h1 in
      let (src, cut, h3) =
        bind_ok
          (slice (e.as_ref item_buf) (bufs_offset + headers_len)
            (bufs_offset + headers_len + extend_by))
          _ h2 in
      let (filled, written, h4) =
        bind_ok (write (e.as_ref grown) (bufs_offset + pkt_len) src) _ h3 in
      let new = e.as_mut grown filled in
      let bufs2 = set bufs1 k new in
      let away : k ≢ i = λ p. other (sym p) in
      let (a, b, at_i, at_k, out_i, out_k) = swap_lem bufs2 i k out other h4 in
      let b_new : b ≡ new =
        ok_eq (sym at_k ∙ nth-set bufs1 k grown new (nth-set bufs k pkt_buf grown at_pkt)) in
      let a_item : a ≡ item_buf = ok_eq (sym at_i ∙ nth-set_other bufs1 k i new away ∙ at_item) in
      let part =
        slice-take (e.as_ref item_buf) (bufs_offset + headers_len)
          (bufs_offset + headers_len + extend_by) cut in
      let wide : bufs_offset + headers_len + extend_by - (bufs_offset + headers_len) ≡ extend_by =
        omega arith in
      let taken : take extend_by (drop (bufs_offset + headers_len) (e.as_ref item_buf)) ≡ src =
        subst (λ n. take n (drop (bufs_offset + headers_len) (e.as_ref item_buf)) ≡ src) wide
          part.2 in
      let size : length src ≡ extend_by =
        ap length (sym taken)
        ∙ omega (
          arith,
          part.0,
          length-take extend_by (drop (bufs_offset + headers_len) (e.as_ref item_buf)),
          length-drop (bufs_offset + headers_len) (e.as_ref item_buf),
        ) in
      (
        item_buf,
        pkt_buf,
        new,
        sym (nth-set_other bufs k i grown away) ∙ at_item,
        at_pkt,
        out_i ∙ ap ok b_new,
        out_k ∙ ap ok a_item,
        laws.as_ref-as_mut grown filled
            ∙ grown_filled pkt_buf extend_by (bufs_offset + pkt_len) src filled size
                (sym (ends pkt_buf at_pkt)) written
            ∙ ap (λ rest. e.as_ref pkt_buf ++ rest) (sym taken),
      )

  flagged_lem :
      (buf : B) (k : ℕ) (psh_set : Bool) (flagged : B)
      → (if psh_set
          then (do
            flags ← at (e.as_ref buf) k
            out ← write_at (e.as_ref buf) k (bit_or flags tcp_flag_psh)
            ok (e.as_mut buf out))
          else ok buf)
        ≡ ok flagged
      → e.as_ref flagged ≡ flagged_front (e.as_ref buf) k psh_set
  unfolding write_at
  flagged_lem buf k false flagged h = ap e.as_ref (sym (ok_eq h))
  flagged_lem buf k true flagged h =
      let (flags, read, h1) = bind_ok (at (e.as_ref buf) k) _ h in
      let (out, written, h2) =
        bind_ok (write_at (e.as_ref buf) k (bit_or flags tcp_flag_psh)) _ h1 in
      ap e.as_ref (sym (ok_eq h2))
      ∙ laws.as_ref-as_mut buf out
      ∙ sym (write-put (e.as_ref buf) k (bit_or flags tcp_flag_psh ∷ []) written)
      ∙ ap (λ f. put (e.as_ref buf) k (bit_or f tcp_flag_psh ∷ []))
          (at-get_or (e.as_ref buf) k read)

  -- When an append returns, the item's place holds what it held, with the PSH flag set if the packet
  -- has it, followed by the payload, and no other place changed.
  pub append_payload_lem :
      (bufs : List B) (item : TcpGroItem) (psh_set : Bool) (payload : List ℕ) (out : List B)
      → append_payload e bufs_offset bufs item psh_set payload ≡ ok out
      → (buf : B) × (joined : B) × (nth bufs item.bufs_index ≡ ok buf)
        × (nth out item.bufs_index ≡ ok joined)
        × (e.as_ref joined
            ≡ flagged_front (e.as_ref buf) (bufs_offset + item.iph_len + tcp_flags_offset) psh_set
              ++ payload)
        × ((j : ℕ) → item.bufs_index ≢ j → nth out j ≡ nth bufs j)
  unfolding append_payload
  append_payload_lem bufs item psh_set payload out h =
      let (buf, found, h1) = bind_ok (nth bufs item.bufs_index) _ h in
      let (flagged, set_flag, h2) =
        bind_ok
          (if psh_set
            then (do
              flags ← at (e.as_ref buf) (bufs_offset + item.iph_len + tcp_flags_offset)
              new ←
                  write_at (e.as_ref buf) (bufs_offset + item.iph_len + tcp_flags_offset)
                    (bit_or flags tcp_flag_psh)
              ok (e.as_mut buf new))
            else ok buf)
          _ h1 in
      let joined = e.buf_extend_from_slice flagged payload in
      let same : out ≡ set bufs item.bufs_index joined = sym (ok_eq h2) in
      (
        buf,
        joined,
        found,
        ap (λ o. nth o item.bufs_index) same ∙ nth-set bufs item.bufs_index buf joined found,
        laws.as_ref-extend flagged payload
            ∙ ap (λ front. front ++ payload)
                (flagged_lem buf (bufs_offset + item.iph_len + tcp_flags_offset) psh_set flagged
                  set_flag),
        λ j away. ap (λ o. nth o j) same ∙ nth-set_other bufs item.bufs_index j joined away,
      )
