-- ===== src/Launch/Pages.antt =====
-- The launch digest as a fold over the measured pages.
use sylica.Base.{
  ℕ, zero, suc, ◌+◌, ◌*◌, ◌/◌, ◌%◌, ◌≡◌, refl, List, [], ◌∷◌, ◌++◌, ◌==◌, ==_iff, length, take,
  drop, replicate, encode_le, join, join-flatten, flatten, ok, true, arith,
}
use sylica.Launch.{
  zeros, page_info, update, normal_pages, update_normal_pages, update_vmsa_page, zero_pages,
  update_zero_pages, vmsa_gpa,
}

-- A measured page: type, guest physical address and contents (a hash, or zeros).
pub record Page : Type 0 where
  pub page_type : ℕ
  pub gpa : ℕ
  pub contents : List ℕ

-- PAGE_INFO of the SNP specification, 8.17.2, Table 67: the digest so far, the contents, the length
-- of the structure (2 bytes), the page type (1), IMI flag and permissions (4) and a reserved byte
-- (all 0), the address (8).
unfoldable pub page_info_layout : List ℕ → Page → List ℕ
page_info_layout ld p =
    ld
    ++ (p.contents
        ++ (encode_le 2 0x70 ++ (encode_le 1 p.page_type ++ (replicate 5 0 ++ encode_le 8 p.gpa))))

page_info-layout :
    (ld : List ℕ) (page_type gpa : ℕ) (contents : List ℕ)
    → length ld ≡ 48
    → length contents ≡ 48
    → page_info ld page_type gpa contents
      ≡ ok (page_info_layout ld (record { page_type = page_type; gpa = gpa; contents = contents }))
unfolding page_info page_info_layout join flatten encode_le replicate
page_info-layout ld page_type gpa contents h k =
    let test : (length contents == 48) ≡ true = (==_iff (length contents) 48).1 k in
    let z : List ℕ = 0 ∷ [] in
    rw test (
      rw (h, k) at
        (join-flatten (
          ld
          ∷ contents
          ∷ encode_le 2 0x70
          ∷ encode_le 1 page_type
          ∷ z
          ∷ z
          ∷ z
          ∷ z
          ∷ z
          ∷ encode_le 8 gpa
          ∷ [])))

abbrev pub page : ℕ → ℕ → List ℕ → Page
page page_type gpa contents = record { page_type = page_type; gpa = gpa; contents = contents }

-- The pages of 4096 zero bytes from an offset on.
unfoldable pub zero_page_list : ℕ → ℕ → ℕ → List Page
zero_page_list zero offset gpa = []
zero_page_list (suc left) offset gpa =
    page 3 (gpa + offset) zeros ∷ zero_page_list left (offset + 4096) gpa

pub length-zeros : length zeros ≡ 48
unfolding zeros replicate
length-zeros = refl

module _ (sha384 : List ℕ → List ℕ) where
  -- The pages of some contents from an offset on, by their hashes.
  unfoldable pub normal_page_list : ℕ → ℕ → ℕ → List ℕ → List Page
  normal_page_list zero offset gpa contents = []
  normal_page_list (suc left) offset gpa contents =
      page 1 (gpa + offset) (sha384 (take 4096 (drop offset contents)))
      ∷ normal_page_list left (offset + 4096) gpa contents

  -- One step of the launch digest.
  unfoldable pub extend : List ℕ → Page → List ℕ
  extend ld p = sha384 (page_info_layout ld p)

  -- The digest after a sequence of pages.
  unfoldable pub extend_all : List ℕ → List Page → List ℕ
  extend_all ld [] = ld
  extend_all ld (p ∷ ps) = extend_all (extend ld p) ps

  pub extend_all-append :
      (ld : List ℕ) (ps qs : List Page)
      → extend_all ld (ps ++ qs) ≡ extend_all (extend_all ld ps) qs
  unfolding extend_all
  extend_all-append ld [] qs = refl
  extend_all-append ld (p ∷ ps) qs = extend_all-append (extend ld p) ps qs

module _ (sha384 : List ℕ → List ℕ) (hash_length : (xs : List ℕ) → length (sha384 xs) ≡ 48) where
  length-extend : (ld : List ℕ) (p : Page) → length (extend sha384 ld p) ≡ 48
  unfolding extend
  length-extend ld p = hash_length (page_info_layout ld p)

  pub length-extend_all :
      (ps : List Page) (ld : List ℕ) → length ld ≡ 48 → length (extend_all sha384 ld ps) ≡ 48
  unfolding extend_all
  length-extend_all [] ld h = h
  length-extend_all (p ∷ ps) ld h = length-extend_all ps (extend sha384 ld p) (length-extend ld p)

  -- A digest and contents of 48 bytes are hashed in the layout of the specification.
  pub update-extend :
      (ld : List ℕ) (page_type gpa : ℕ) (contents : List ℕ)
      → length ld ≡ 48
      → length contents ≡ 48
      → update sha384 ld page_type gpa contents
        ≡ ok (extend sha384 ld (page page_type gpa contents))
  unfolding update extend
  update-extend ld page_type gpa contents h k = rw (page_info-layout ld page_type gpa contents h k)

  normal_pages-extend :
      (left offset gpa : ℕ) (contents ld : List ℕ)
      → length ld ≡ 48
      → normal_pages sha384 left offset gpa contents ld
        ≡ ok (extend_all sha384 ld (normal_page_list sha384 left offset gpa contents))
  unfolding normal_pages normal_page_list extend_all
  normal_pages-extend zero offset gpa contents ld h = refl
  normal_pages-extend (suc left) offset gpa contents ld h =
      let c : List ℕ = sha384 (take 4096 (drop offset contents)) in
      rw (update-extend ld 1 (gpa + offset) c h (hash_length (take 4096 (drop offset contents)))) (
        normal_pages-extend left (offset + 4096) gpa contents
          (extend sha384 ld (page 1 (gpa + offset) c)) (length-extend ld (page 1 (gpa + offset) c)))

  zero_pages-extend :
      (left offset gpa : ℕ) (ld : List ℕ)
      → length ld ≡ 48
      → zero_pages sha384 left offset gpa ld
        ≡ ok (extend_all sha384 ld (zero_page_list left offset gpa))
  unfolding zero_pages zero_page_list extend_all
  zero_pages-extend zero offset gpa ld h = refl
  zero_pages-extend (suc left) offset gpa ld h =
      rw (update-extend ld 3 (gpa + offset) zeros h length-zeros) (
        zero_pages-extend left (offset + 4096) gpa (extend sha384 ld (page 3 (gpa + offset) zeros))
          (length-extend ld (page 3 (gpa + offset) zeros)))

  -- Contents of whole pages are measured page by page, each by its hash, at rising addresses.
  pub update_normal_pages-extend :
      (n gpa : ℕ) (contents ld : List ℕ)
      → length contents ≡ n * 4096
      → length ld ≡ 48
      → update_normal_pages sha384 ld gpa contents
        ≡ ok (extend_all sha384 ld (normal_page_list sha384 n 0 gpa contents))
  unfolding update_normal_pages
  update_normal_pages-extend n gpa contents ld w h =
      let fits : (length contents % 4096 == 0) ≡ true =
        (==_iff (length contents % 4096) 0).1 (omega arith) in
      let count : length contents / 4096 ≡ n = omega arith in
      rw (fits, count) (normal_pages-extend n 0 gpa contents ld h)

  pub update_zero_pages-extend :
      (n gpa : ℕ) (ld : List ℕ)
      → length ld ≡ 48
      → update_zero_pages sha384 ld gpa (n * 4096)
        ≡ ok (extend_all sha384 ld (zero_page_list n 0 gpa))
  unfolding update_zero_pages
  update_zero_pages-extend n gpa ld h =
      let fits : (n * 4096 % 4096 == 0) ≡ true = (==_iff (n * 4096 % 4096) 0).1 (omega arith) in
      let count : n * 4096 / 4096 ≡ n = omega arith in
      rw (fits, count) (zero_pages-extend n 0 gpa ld h)

  pub update_vmsa_page-extend :
      (contents ld : List ℕ)
      → length contents ≡ 4096
      → length ld ≡ 48
      → update_vmsa_page sha384 ld contents
        ≡ ok (extend sha384 ld (page 2 vmsa_gpa (sha384 contents)))
  unfolding update_vmsa_page
  update_vmsa_page-extend contents ld w h =
      rw ((==_iff (length contents) 4096).1 w)
        (update-extend ld 2 vmsa_gpa (sha384 contents) h (hash_length contents))
