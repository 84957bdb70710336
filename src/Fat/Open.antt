-- ===== src/Fat/Open.antt =====
-- Opening a file: `fat32_open_file` of kernel/filesystems/fat.c. A file is a value here, `none` for the
-- null pointer.
use l_ost.Common.{
  ℕ, zero, suc, ◌+◌, ◌-◌, ◌*◌, ◌/◌, ◌^◌, ◌≡◌, ◌≢◌, refl, ◌⊎◌, inl, inr, true, false, Option, none,
  some, arith, ℕ_discrete, ◌==◌, if◌then◌else◌, Option-cases, u32,
}
use l_ost.Common.Int.{ℤ}
use l_ost.Memory.{kmalloc}
use l_ost.Text.{Bytes, kstrlen, kstrcmp, kmemcpy, kstrtok}
use l_ost.Storage.{Drive}
use l_ost.Storage.Detect.{word_at, long_at}
use l_ost.Fat.{Dirent, FatFile, Volume, Disk}
use l_ost.Fat.Files.{fat32_read}
use l_ost.Fat.Names.{is_zero, dot_from, search_from, search_dir}

-- The record of 32 bytes at an address.
abbrev pub dirent_at : Bytes → ℕ → Dirent
dirent_at m a = record {
  first_cluster_high = word_at m (a + 20);
  first_cluster = word_at m (a + 26);
  filesize_bytes = long_at m (a + 28);
}

-- `while(dirents->name[0]) dirsize++;`, which looks at the first entry in every round.
unfoldable pub count_entries : (fuel : ℕ) → Bytes → (dirents dirsize : ℕ) → Option ℕ
count_entries zero m dirents dirsize = none
count_entries (suc fuel) m dirents dirsize =
    let rest = count_entries fuel m dirents (dirsize + 1) in
    if m dirents == 0 then some dirsize else rest

-- The cluster where an entry's file starts.
abbrev pub cluster_of : Dirent → ℕ
cluster_of dirent = dirent.first_cluster + 2 ^ 16 * dirent.first_cluster_high

-- What the loop makes of the directory, which is the volume's own record of its root.
abbrev pub enter_dir : Dirent → FatFile → FatFile
enter_dir dirent dir = record dir {
  current_cluster = cluster_of dirent;
  start_cluster = cluster_of dirent;
  file_base = record dir.file_base { position = 0 };
  position_in_cluster = 0;
}

-- The file that is returned, on a fresh page that holds `raw`.
abbrev pub new_file : (mode : ℕ) → Dirent → FatFile → FatFile
new_file mode dirent raw = record raw {
  dirent = dirent;
  file_base = record raw.file_base { fs_type = 5; mode = mode; permission = 7; position = 0 };
  position_in_cluster = 0;
  current_cluster = cluster_of dirent;
  start_cluster = cluster_of dirent;
}

-- `kstrtok`'s own pointer, and what the driver works on.
pub record Opening : Type 0 where
  pub static_str : ℕ
  pub volume : Volume
  pub disk : Disk

module _ (ata_read : (buffer : ℕ) → Drive → (sectors start : ℕ) → Bytes → Option (ℕ × Bytes))
    (ata_write : (buffer : ℕ) → Drive → (sectors start : ℕ) → Bytes → Option Bytes) where
  -- The loop's body up to the search: the address of the entry found, or 0.
  unfoldable pub look_up : (fuel token dirents : ℕ) → Opening → Option (ℕ × Opening)
  look_up fuel token dirents o =
      elim (fat32_read ata_read ata_write fuel o.volume.root_file (2 ^ 32 - 1) dirents o.volume
        o.disk) [
          | none ↦ none
          | some (dir, (v, d)) ↦ elim (count_entries fuel d.memory dirents 0) [
            | none ↦ none
            | some dirsize ↦ elim (search_dir fuel d.memory token dirents dirsize) [
              | none ↦ none
              | some result ↦
                  some (result, record o { volume = record v { root_file = dir }; disk = d })
            ]
          ]
        ]

  -- The loop over the tokens and what stands behind it.
  unfoldable pub open_tokens :
      (rounds fuel token delim dirents mode : ℕ)
      → Dirent
      → FatFile
      → Opening
      → Option (Option FatFile × Opening)
  open_tokens zero fuel token delim dirents mode dirent raw o = none
  open_tokens (suc rounds) fuel token delim dirents mode dirent raw o = elim (token == 0) [
    | true ↦
        let pages = (kmalloc 1 6 o.disk.pages).1 in
        some (some (new_file mode dirent raw), record o { disk = record o.disk { pages = pages } })
    | false ↦ elim (look_up fuel token dirents o) [
      | none ↦ none
      | some (result, o1) ↦ elim (result == 0) [
        | true ↦ some (none, o1)
        | false ↦
            let found = dirent_at o1.disk.memory result in
            let v = record o1.volume { root_file = enter_dir found o1.volume.root_file } in
            elim (kstrtok fuel 0 delim o1.static_str o1.disk.memory) [
              | none ↦ none
              | some (token', static', m) ↦
                  open_tokens rounds fuel token' delim dirents mode found raw (record {
                    static_str = static';
                    volume = v;
                    disk = record o1.disk { memory = m };
                  })
            ]
      ]
    ]
  ]

  -- `fat32_open_file` on pointers that are not null, for a path at the address `filename` that is not
  -- `root`, the string "/".
  unfoldable pub open_path :
      (fuel filename delim mode : ℕ)
      → Dirent
      → FatFile
      → Opening
      → Option (Option FatFile × Opening)
  open_path fuel filename delim mode dirent raw o = elim (kstrlen fuel o.disk.memory filename) [
    | none ↦ none
    | some size ↦
        let (str_to_tok, pages1) = kmalloc (size / 4096 + 1) 6 o.disk.pages in
        elim (kstrtok fuel str_to_tok delim o.static_str
          (kmemcpy filename str_to_tok size o.disk.memory)) [
            | none ↦ none
            | some (token, static', m) ↦
                let v = o.volume in
                let (dirents, pages2) =
                  kmalloc (u32 (v.sector_size_bytes * v.sectors_per_cluster * 2048) / 4096) 6
                    pages1 in
                open_tokens fuel fuel token delim dirents mode dirent raw (record {
                  static_str = static';
                  volume = v;
                  disk = record o.disk { memory = m; pages = pages2 };
                })
          ]
  ]

  unfoldable pub fat32_open_file :
      (fuel filename root delim mode : ℕ)
      → Dirent
      → FatFile
      → Opening
      → Option (Option FatFile × Opening)
  fat32_open_file fuel filename root delim mode dirent raw o =
      elim (kstrcmp fuel o.disk.memory filename root) [
        | none ↦ none
        | some order ↦ elim (is_zero order) [
          | true ↦
              let pages = (kmalloc 1 6 o.disk.pages).1 in
              some (some o.volume.root_file, record o { disk = record o.disk { pages = pages } })
          | false ↦ open_path fuel filename delim mode dirent raw o
        ]
      ]

  -- The count is over at once, or never.
  count_entries-none :
      (fuel dirents dirsize : ℕ) (m : Bytes)
      → m dirents ≢ 0
      → count_entries fuel m dirents dirsize ≡ none
  unfolding count_entries
  count_entries-none zero dirents dirsize m ne = refl
  count_entries-none (suc fuel) dirents dirsize m ne =
      let some_name : (m dirents == 0) ≡ false = ground arith in
      rw (count_entries, some_name) (count_entries-none fuel dirents (dirsize + 1) m ne)

  count_entries-over :
      (fuel dirents dirsize : ℕ) (m : Bytes)
      → m dirents ≡ 0
      → (count_entries fuel m dirents dirsize ≡ none)
        ⊎ (count_entries fuel m dirents dirsize ≡ some dirsize)
  unfolding count_entries
  count_entries-over zero dirents dirsize m e = inl refl
  count_entries-over (suc fuel) dirents dirsize m e = inr (rw (count_entries, e) refl)

  count_entries-cases :
      (fuel dirents : ℕ) (m : Bytes)
      → (count_entries fuel m dirents 0 ≡ none) ⊎ (count_entries fuel m dirents 0 ≡ some 0)
  count_entries-cases fuel dirents m = elim (ℕ_discrete (m dirents) 0) [
    | yes e ↦ count_entries-over fuel dirents 0 m e
    | no ne ↦ inl (count_entries-none fuel dirents 0 m ne)
  ]

  -- A search of no entries finds none.
  search_dir-none :
      (fuel file dir : ℕ) (m : Bytes)
      → (search_dir fuel m file dir 0 ≡ none) ⊎ (search_dir fuel m file dir 0 ≡ some 0)
  unfolding search_dir search_from
  search_dir-none fuel file dir m = elim (Option-cases (dot_from fuel m file)) [
    | inl out ↦ inl (rw (search_dir, out) refl)
    | inr (extension, at) ↦ inr (rw (search_dir, at) refl)
  ]

  look_up-cases :
      (fuel token dirents : ℕ) (o : Opening)
      → (look_up fuel token dirents o ≡ none)
        ⊎ ((o' : Opening) × (look_up fuel token dirents o ≡ some (0, o')))
  unfolding look_up
  look_up-cases fuel token dirents o =
      elim (Option-cases (
        fat32_read ata_read ata_write fuel o.volume.root_file (2 ^ 32 - 1) dirents o.volume
          o.disk)) [
            | inl out ↦ inl (rw (look_up, out) refl)
            | inr (read, run) ↦ elim (count_entries-cases fuel dirents read.1.1.memory) [
              | inl out ↦ inl (rw (look_up, run, out) refl)
              | inr none_there ↦ elim (search_dir-none fuel token dirents read.1.1.memory) [
                | inl out ↦ inl (rw (look_up, run, none_there, out) refl)
                | inr null ↦ inr (
                  record o { volume = record read.1.0 { root_file = read.0 }; disk = read.1.1 },
                  rw (look_up, run, none_there, null) refl,
                )
              ]
            ]
          ]

  open_tokens-cases :
      (rounds fuel token delim dirents mode : ℕ) (dirent : Dirent) (raw : FatFile) (o : Opening)
      → token ≢ 0
      → (open_tokens rounds fuel token delim dirents mode dirent raw o ≡ none)
        ⊎ ((o' : Opening) × (open_tokens rounds fuel token delim dirents mode dirent raw o
              ≡ some (none, o')))
  unfolding open_tokens
  open_tokens-cases zero fuel token delim dirents mode dirent raw o real = inl refl
  open_tokens-cases (suc rounds) fuel token delim dirents mode dirent raw o real =
      let nonzero : (token == 0) ≡ false = ground arith in
      elim (look_up-cases fuel token dirents o) [
        | inl out ↦ inl (rw (open_tokens, nonzero, out) refl)
        | inr (o', run) ↦ inr (o', rw (open_tokens, nonzero, run) refl)
      ]

  -- For a path other than "/" that has a token, `fat32_open_file` never gives a file: it does not come
  -- back from its count of the entries, or it returns the null pointer.
  pub fat32_open_file-nothing :
      (fuel filename root delim mode size token static' : ℕ) (order : ℤ) (m : Bytes)
      (dirent : Dirent) (raw : FatFile) (o : Opening)
      → kstrcmp fuel o.disk.memory filename root ≡ some order
      → is_zero order ≡ false
      → kstrlen fuel o.disk.memory filename ≡ some size
      → kstrtok fuel
          (kmalloc (size / 4096 + 1) 6 o.disk.pages).0
          delim
          o.static_str
          (kmemcpy filename (kmalloc (size / 4096 + 1) 6 o.disk.pages).0 size o.disk.memory)
        ≡ some (token, static', m)
      → token ≢ 0
      → (fat32_open_file fuel filename root delim mode dirent raw o ≡ none)
        ⊎ ((o' : Opening) × (fat32_open_file fuel filename root delim mode dirent raw o
              ≡ some (none, o')))
  unfolding fat32_open_file open_path
  fat32_open_file-nothing fuel filename root delim mode size token static' order m dirent raw o
        compared other measured cut real =
      let v = o.volume in
      let pages1 = (kmalloc (size / 4096 + 1) 6 o.disk.pages).1 in
      let (dirents, pages2) =
        kmalloc (u32 (v.sector_size_bytes * v.sectors_per_cluster * 2048) / 4096) 6 pages1 in
      let o1 : Opening = record {
        static_str = static';
        volume = v;
        disk = record o.disk { memory = m; pages = pages2 };
      } in
      let start : fat32_open_file fuel filename root delim mode dirent raw o
          ≡ open_tokens fuel fuel token delim dirents mode dirent raw o1 =
        rw (compared, fat32_open_file, other, open_path, measured, cut) refl in
      rw start (open_tokens-cases fuel fuel token delim dirents mode dirent raw o1 real)
