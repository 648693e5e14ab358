-- ===== src/Fs/Cpio/Tests.antt =====
-- An archive with the file "./a", whose content is "hi".
use unix_os.Prelude.{List, Bool, ℕ, ◌≡◌, replicate, ◌++◌, some, ◌∷◌, true, [], ◌≤◌, refl, arith}
use unix_os.Fs.Cpio.{initramfs_load, Entry, magic}
use unix_os.Fs.Cpio.Bounds.{total_bytes, initramfs_load-ends}

abbrev zeros : List ℕ
zeros = replicate 8 48

abbrev header : List ℕ
header =
    magic
    ++ zeros
    ++ (48 ∷ 48 ∷ 48 ∷ 48 ∷ 56 ∷ 49 ∷ 65 ∷ 52 ∷ [])
    ++ zeros
    ++ zeros
    ++ zeros
    ++ zeros
    ++ (48 ∷ 48 ∷ 48 ∷ 48 ∷ 48 ∷ 48 ∷ 48 ∷ 50 ∷ [])
    ++ zeros
    ++ zeros
    ++ zeros
    ++ zeros
    ++ (48 ∷ 48 ∷ 48 ∷ 48 ∷ 48 ∷ 48 ∷ 48 ∷ 52 ∷ [])
    ++ zeros

abbrev archive : List ℕ
archive = header ++ 46 ∷ 47 ∷ 97 ∷ 0 ∷ 0 ∷ 0 ∷ 104 ∷ 105 ∷ 0 ∷ 0 ∷ []

loaded :
    initramfs_load 200 archive
    ≡ some (true, record { mode = 0x81A4; name = 46 ∷ 47 ∷ 97 ∷ []; content = 104 ∷ 105 ∷ [] } ∷ [])
unfolding initramfs_load
loaded = refl

initramfs_load-ends_example :
    (valid : Bool) × (es : List Entry) × (initramfs_load 200 archive ≡ some (valid, es))
    × (total_bytes es ≤ 120)
initramfs_load-ends_example = initramfs_load-ends 200 archive (omega arith) (omega arith)
