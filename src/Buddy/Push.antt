-- ===== src/Buddy/Push.antt =====
-- The assignments that put a block in front of its free list (kernel/kernel/pmm.c), on the lists as
-- sequences.
use chao_s_os.Prelude.{
  ℕ, ◌<◌, ◌≤◌, ◌≡◌, ◌≢◌, inl, inr, sym, ap, subst, ◌∙◌, true, Bool-cases, List, ◌∷◌, arith, ◌==◌,
  if◌then◌else◌, update,
}
use chao_s_os.Links.Ring.{has, ◌∉◌}
use chao_s_os.Buddy.{Zone, max_level, block_head, push_block}
use chao_s_os.Buddy.Threads.{
  Segment, Segment-same, Segment-first-ne, Segment-range, Segment-pushed, Pushed,
}
use chao_s_os.Buddy.Lists.{FreeLists, InHand}
use chao_s_os.Buddy.Joining.{first-le}

push_block-Pushed :
    (level page : ℕ) (z : Zone)
    → z.free_lists level ≤ z.frames_number
    → page ≢ z.free_lists level
    → Pushed z.frames_number z.frames (push_block level page z).frames page (z.free_lists level)
unfolding push_block
push_block-Pushed level page z l d = record {
  next = ground arith;
  prev = ground arith;
  behind = λ n. ground (arith, n, l, d);
  nexts = λ i n. ground (arith, n);
  prevs = λ i n m. ground (arith, n, m);
}

push_block-other :
    (level page i : ℕ) (z : Zone)
    → i ≢ page
    → (((push_block level page z).frames i).flags ≡ (z.frames i).flags)
      × (((push_block level page z).frames i).level ≡ (z.frames i).level)
unfolding push_block
push_block-other level page i z n = ground (arith, n)

push_block-own :
    (level page : ℕ) (z : Zone)
    → (((push_block level page z).frames page).flags ≡ block_head)
      × (((push_block level page z).frames page).level ≡ level)
unfolding push_block
push_block-own level page z = ground arith

push_block-list :
    (level page j : ℕ) (z : Zone)
    → (push_block level page z).free_lists j ≡ (if j == level then page else z.free_lists j)
unfolding push_block
push_block-list level page j z = ground arith

push_block-number :
    (level page : ℕ) (z : Zone) → (push_block level page z).frames_number ≡ z.frames_number
unfolding push_block
push_block-number level page z = ground arith

-- What puts the block in hand in front of the list of its level, whatever assignments make it so.
pub record Front (z : Zone) (page level : ℕ) (z' : Zone) : Type 0 where
  pub links :
      z.free_lists level ≤ z.frames_number
      → page ≢ z.free_lists level
      → Pushed z.frames_number z.frames z'.frames page (z.free_lists level)
  pub other :
      (i : ℕ)
      → i ≢ page
      → ((z'.frames i).flags ≡ (z.frames i).flags) × ((z'.frames i).level ≡ (z.frames i).level)
  pub own : ((z'.frames page).flags ≡ block_head) × ((z'.frames page).level ≡ level)
  pub lists : (j : ℕ) → z'.free_lists j ≡ (if j == level then page else z.free_lists j)
  pub number : z'.frames_number ≡ z.frames_number

pub push_block-Front : (level page : ℕ) (z : Zone) → Front z page level (push_block level page z)
push_block-Front level page z = record {
  links = push_block-Pushed level page z;
  other = λ i n. push_block-other level page i z n;
  own = push_block-own level page z;
  lists = λ j. push_block-list level page j z;
  number = push_block-number level page z;
}

module _ (z z' : Zone) (page level : ℕ) (ls : ℕ → List ℕ) (front : Front z page level z')
    (h : InHand z page ls) (b : level < max_level) (in_range : page < z.frames_number) where
  abbrev ls' : ℕ → List ℕ
  ls' = update ls level (page ∷ ls level)

  own_list : Segment z.frames_number z.frames z.frames_number (z.free_lists level) (ls level)
  own_list = h.threaded.segment level b

  not_first : page ≢ z.free_lists level
  not_first =
      Segment-first-ne z.frames_number z.frames z.frames_number (z.free_lists level) page (ls level)
        own_list in_range (h.outside level b)

  pub pushed : Pushed z.frames_number z.frames z'.frames page (z.free_lists level)
  pushed =
      front.links
        (first-le z.frames_number z.frames z.frames_number (z.free_lists level) (ls level) own_list)
        not_first

  not_page : (l i : ℕ) → l < max_level → has i (ls l) ≡ true → i ≢ page
  not_page l i b' y e = ground (arith, e, y, h.outside l b')

  pushed-segment :
      (l : ℕ)
      → l < max_level
      → Segment z'.frames_number z'.frames z'.frames_number (z'.free_lists l) (ls' l)
  pushed-segment l b' = elim (Bool-cases (l == level)) [
    | inl e ↦
        rw (front.lists l, front.number, e)
          (Segment-pushed z.frames_number z.frames z'.frames page (z.free_lists level) (ls level)
            pushed in_range (h.outside level b) (h.threaded.distinct level b) own_list)
    | inr e ↦
        rw (front.lists l, front.number, e)
          (Segment-same z.frames_number z.frames z'.frames z.frames_number (z.free_lists l) (ls l)
            (λ i y.
              let other : l ≢ level = ground arith in
              let n = not_page l i b' y in
              let first : i ≢ z.free_lists level =
                Segment-first-ne z.frames_number z.frames z.frames_number (z.free_lists level) i
                  (ls level) own_list
                  (Segment-range z.frames_number z.frames z.frames_number (z.free_lists l) i (ls l)
                    (h.threaded.segment l b') y)
                  (apart l i b' other y) in
              (pushed.prevs i n first, pushed.nexts i n))
            (h.threaded.segment l b'))
  ]
    where
      apart : (l i : ℕ) → l < max_level → l ≢ level → has i (ls l) ≡ true → i ∉ ls level
      apart l i b' d y = elim (Bool-cases (has i (ls level))) [
        | inl y' ↦ absurd (d (sym (h.threaded.head l i b' y).1 ∙ (h.threaded.head level i b y').1))
        | inr n ↦ n
      ]

  pushed-head :
      (l i : ℕ)
      → l < max_level
      → has i (ls' l) ≡ true
      → ((z'.frames i).flags ≡ block_head) × ((z'.frames i).level ≡ l)
  pushed-head l i b' y = elim (Bool-cases (i == page)) [
    | inl e ↦
        let same : page ≡ i = ground arith in
        let (f, s) = front.own in
        let at : l ≡ level = elim (Bool-cases (l == level)) [
          | inl t ↦ ground arith
          | inr t ↦
              let y' = subst (λ t. has i (if t then page ∷ ls level else ls l) ≡ true) t y in
              absurd (not_page l i b' y' (sym same))
        ] in
        subst (λ i. ((z'.frames i).flags ≡ block_head) × ((z'.frames i).level ≡ l)) same
          (f, s ∙ sym at)
    | inr e ↦
        let n : i ≢ page = ground arith in
        let (f, s) = front.other i n in
        let was : has i (ls l) ≡ true = elim (Bool-cases (l == level)) [
          | inl t ↦
              let same : level ≡ l = ground arith in
              let y' = subst (λ t. has i (if t then page ∷ ls level else ls l) ≡ true) t y in
              subst (λ l. has i (ls l) ≡ true) same (ground (arith, y', n))
          | inr t ↦ subst (λ t. has i (if t then page ∷ ls level else ls l) ≡ true) t y
        ] in
        let (f', s') = h.threaded.head l i b' was in (f ∙ f', s ∙ s')
  ]

  pushed-listed :
      (l i : ℕ)
      → l < max_level
      → (z'.frames i).flags ≡ block_head
      → (z'.frames i).level ≡ l
      → has i (ls' l) ≡ true
  pushed-listed l i b' f s = elim (Bool-cases (i == page)) [
    | inl e ↦
        let same : page ≡ i = ground arith in
        let at : (l == level) ≡ true =
          ground (arith, (front.own).1, s, ap (λ i. (z'.frames i).level) same) in
        rw at (ground (arith, e))
    | inr e ↦
        let n : i ≢ page = ground arith in
        let (f', s') = front.other i n in
        let was = h.listed l i b' n (sym f' ∙ f) (sym s' ∙ s) in
        elim (Bool-cases (l == level)) [
          | inl t ↦
              let same : l ≡ level = ground arith in
              let was' = subst (λ l. has i (ls l) ≡ true) same was in rw t (ground (arith, was'))
          | inr t ↦ rw t was
        ]
  ]

  pub pushed-FreeLists : FreeLists z' ls'
  pushed-FreeLists = record {
    threaded = record {
      segment = pushed-segment;
      distinct = λ l b'. elim (Bool-cases (l == level)) [
        | inl e ↦ rw e (h.outside level b, h.threaded.distinct level b)
        | inr e ↦ rw e (h.threaded.distinct l b')
      ];
      head = pushed-head;
    };
    listed = pushed-listed;
  }
