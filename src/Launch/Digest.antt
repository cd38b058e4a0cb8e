-- ===== src/Launch/Digest.antt =====
-- `snp_measure` as a fold over the measured pages.
use sylica.Base.{
  ℕ, zero, suc, ◌+◌, ◌*◌, ◌%◌, ◌^◌, ◌≤◌, ◌<◌, All, ◌≡◌, refl, ap, List, [], ◌∷◌, ◌++◌, length,
  take_all, add-zero, drop, ok, arith,
}
use sylica.Ctype.{num}
use sylica.Launch.{zeros, vmsa_gpa, update_secrets_page, update_cpuid_page}
use sylica.Launch.Pages.{
  Page, page, zero_page_list, normal_page_list, extend, extend_all, extend_all-append,
  length-extend_all, length-zeros, update-extend, update_normal_pages-extend,
  update_zero_pages-extend, update_vmsa_page-extend,
}
use sylica.Launch.Snp.{
  Section, Config, Form, measure_hashes, measure_section, measure_sections, measure_vmsas,
  snp_measure,
}
use sylica.Launch.Hashes.{SevHashes}
use sylica.Launch.Table.{HasHashes, hashes_page-layout, page_layout, length-page_layout}
use sylica.Launch.Vmsa.{qemu, new_vmsa, pages, pages_from, Vmsa, cpu_sigs}
use sylica.Launch.Areas.{build_save_area_total}

-- The pages that a section of each type stands for; `content` is the page of hashes.
pub data SectionPages (sha384 : List ℕ → List ℕ) (content : List ℕ)
    : Section → List Page → Type 0 where
  memory :
      (gpa n : ℕ)
      → SectionPages sha384 content
          (record { gpa = gpa; size = n * 4096; type = 1 })
          (zero_page_list n 0 gpa)
  secrets :
      (gpa size : ℕ)
      → SectionPages sha384 content
          (record { gpa = gpa; size = size; type = 2 })
          (page 5 gpa zeros ∷ [])
  cpuid_page :
      (gpa size : ℕ)
      → SectionPages sha384 content
          (record { gpa = gpa; size = size; type = 3 })
          (page 6 gpa zeros ∷ [])
  caa :
      (gpa n : ℕ)
      → SectionPages sha384 content
          (record { gpa = gpa; size = n * 4096; type = 4 })
          (zero_page_list n 0 gpa)
  hashes :
      (gpa size : ℕ)
      → SectionPages sha384 content
          (record { gpa = gpa; size = size; type = 0x10 })
          (page 1 gpa (sha384 content) ∷ [])

pub data AllPages (sha384 : List ℕ → List ℕ) (content : List ℕ)
    : List Section → List Page → Type 0 where
  done : AllPages sha384 content [] []
  next :
      {s : Section} {rest : List Section} {ps qs : List Page}
      → SectionPages sha384 content s ps
      → AllPages sha384 content rest qs
      → AllPages sha384 content (s ∷ rest) (ps ++ qs)

module _ (sha384 : List ℕ → List ℕ) (hash_length : (xs : List ℕ) → length (sha384 xs) ≡ 48) where
  module _ (table : SevHashes) (gpa_of_table : ℕ) (w : HasHashes table)
      (room : gpa_of_table % 4096 + 176 ≤ 4096) where
    abbrev content : List ℕ
    content = page_layout table (gpa_of_table % 4096)

    measure_hashes-extend :
        (gpa : ℕ) (ld : List ℕ)
        → length ld ≡ 48
        → measure_hashes sha384 table gpa_of_table ld gpa
          ≡ ok (extend_all sha384 ld (page 1 gpa (sha384 content) ∷ []))
    unfolding measure_hashes
    measure_hashes-extend gpa ld h =
        let size : length content ≡ 4096 = length-page_layout table (gpa_of_table % 4096) w room in
        let one : normal_page_list sha384 1 0 gpa content ≡ page 1 gpa (sha384 content) ∷ [] =
          unfold normal_page_list drop in rw (add-zero gpa, take_all 4096 content (omega arith)) in
        rw (
          hashes_page-layout table gpa_of_table w room,
          update_normal_pages-extend sha384 hash_length 1 gpa content ld (omega arith) h,
          one,
        )

    -- Each section adds the pages that it stands for.
    measure_section-extend :
        {s : Section} {ps : List Page} (ld : List ℕ)
        → SectionPages sha384 content s ps
        → length ld ≡ 48
        → measure_section sha384 table gpa_of_table ld s ≡ ok (extend_all sha384 ld ps)
    unfolding measure_section
    measure_section-extend ld (memory gpa n) h =
        update_zero_pages-extend sha384 hash_length n gpa ld h
    measure_section-extend ld (caa gpa n) h = update_zero_pages-extend sha384 hash_length n gpa ld h
    measure_section-extend ld (secrets gpa size) h =
        unfold update_secrets_page extend_all in
        update-extend sha384 hash_length ld 5 gpa zeros h length-zeros
    measure_section-extend ld (cpuid_page gpa size) h =
        unfold update_cpuid_page extend_all in
        update-extend sha384 hash_length ld 6 gpa zeros h length-zeros
    measure_section-extend ld (hashes gpa size) h = measure_hashes-extend gpa ld h

    measure_sections-extend :
        {ss : List Section} {ps : List Page} (ld : List ℕ)
        → AllPages sha384 content ss ps
        → length ld ≡ 48
        → measure_sections sha384 table gpa_of_table ss ld ≡ ok (extend_all sha384 ld ps)
    unfolding measure_sections
    measure_sections-extend ld done h = unfold extend_all in refl
    measure_sections-extend ld (next {ps = ps} {qs = qs} one more) h =
        rw (measure_section-extend ld one h, extend_all-append sha384 ld ps qs)
          (measure_sections-extend (extend_all sha384 ld ps) more
            (length-extend_all sha384 hash_length ps ld h))

  -- The pages of the virtual processors.
  abbrev pub vmsa_page_list : List (List ℕ) → List Page
  vmsa_page_list [] = []
  vmsa_page_list (c ∷ cs) = page 2 vmsa_gpa (sha384 c) ∷ vmsa_page_list cs

  measure_vmsas-extend :
      (cs : List (List ℕ)) (ld : List ℕ)
      → All (λ c. length c ≡ 4096) cs
      → length ld ≡ 48
      → measure_vmsas sha384 cs ld ≡ ok (extend_all sha384 ld (vmsa_page_list cs))
  unfolding measure_vmsas extend_all
  measure_vmsas-extend [] ld a h = refl
  measure_vmsas-extend (c ∷ cs) ld a h =
      rw (update_vmsa_page-extend sha384 hash_length c ld a.0 h) (
        measure_vmsas-extend cs (extend sha384 ld (page 2 vmsa_gpa (sha384 c))) a.1
          (length-extend_all sha384 hash_length (page 2 vmsa_gpa (sha384 c) ∷ []) ld h))

  -- `pages` of save areas of 4096 bytes.
  pages_from-size :
      (vmsa : Vmsa) (left i : ℕ)
      → length vmsa.bsp_save_area ≡ 4096
      → length vmsa.ap_save_area ≡ 4096
      → All (λ c. length c ≡ 4096) (pages_from vmsa left i)
  unfolding pages_from
  pages_from-size vmsa zero i b a = tt
  pages_from-size vmsa (suc left) zero b a = (b, pages_from-size vmsa left 1 b a)
  pages_from-size vmsa (suc left) (suc i) b a = (a, pages_from-size vmsa left (suc (suc i)) b a)

  -- With a hash function whose results have 48 bytes, for a firmware digest of 48 bytes, three hashes
  -- of 32 bytes with room for their table in its page, a known processor with a signature below
  -- 2 ^ 64 and a 32-bit reset address, and sections of known types that stand for the pages `ps`
  -- (memory and SVSM areas of whole pages): the save areas can be built and the measurement succeeds;
  -- it is the firmware digest extended in turn by `ps` and by the save area of each processor, all in
  -- the layout of the specification.
  pub snp_measure-extend_all :
      (form : Form) (config : Config) (sig : ℕ) (ps : List Page)
      → length config.ovmf_hash ≡ 48
      → HasHashes form.hashes
      → config.sev_hashes % 4096 + 176 ≤ 4096
      → cpu_sigs form.vcpu_sig ≡ num sig
      → sig < 2 ^ 64
      → config.reset_eip < 2 ^ 32
      → AllPages sha384 (page_layout form.hashes (config.sev_hashes % 4096)) config.sections ps
      → (vmsa : Vmsa) × (new_vmsa config.reset_eip (num sig) (num 1) qemu ≡ ok vmsa)
        × (snp_measure sha384 form config
            ≡ ok
                (extend_all sha384 config.ovmf_hash (ps ++ vmsa_page_list (pages vmsa form.vcpus))))
  unfolding snp_measure new_vmsa pages
  snp_measure-extend_all form config sig ps h w room known s e all =
      let (bsp, b, lb) = build_save_area_total 0xfffffff0 1 sig (omega arith) (omega arith) s in
      let (ap, a, la) = build_save_area_total config.reset_eip 1 sig e (omega arith) s in
      let vmsa : Vmsa = record { bsp_save_area = bsp; ap_save_area = ap } in
      let sizes : All (λ c. length c ≡ 4096) (pages_from vmsa form.vcpus 0) =
        pages_from-size vmsa form.vcpus 0 lb la in
      let ld : List ℕ = extend_all sha384 config.ovmf_hash ps in
      (
        vmsa,
        rw (b, a),
        rw (
          measure_sections-extend form.hashes config.sev_hashes w room config.ovmf_hash all h,
          known,
          b,
          a,
          measure_vmsas-extend (pages_from vmsa form.vcpus 0) ld sizes
              (length-extend_all sha384 hash_length ps config.ovmf_hash h),
          extend_all-append sha384 config.ovmf_hash ps
              (vmsa_page_list (pages_from vmsa form.vcpus 0)),
        ),
      )
