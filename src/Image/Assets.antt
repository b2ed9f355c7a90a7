-- ===== src/Image/Assets.antt =====
-- src/firecracker/assets.rs: the Firecracker binary and the kernel.
use clawstainer.Base.{String, [], ◌∷◌, ◌==◌, if◌then◌else◌, ◌&&◌, ◌||◌}
use clawstainer.Errors.{other, Result, ok, err}
use clawstainer.Exec.{Exec, pure, lift, ◌>>=◌, ◌>>◌}
use clawstainer.Image.Paths.{FileHost, ◌^◌, ◌//◌, firecracker_dir, run_or}

abbrev known_arch : String → String → Result String
known_arch unsupported arch =
    if arch == "aarch64" || arch == "x86_64" then ok arch else err (other (unsupported ^ arch))

unfoldable pub fc_url : String → String
fc_url arch =
    "https://github.com/firecracker-microvm/firecracker/releases/download/v1.11.0/firecracker-v1.11.0-"
    ^ arch ^ ".tgz"

abbrev bin_dir : String
bin_dir = firecracker_dir // "bin"

abbrev bin_path : String
bin_path = bin_dir // "firecracker"

abbrev kernel_path : String
kernel_path = firecracker_dir // "kernels/vmlinux"

unfoldable pub unpack_command : String → String
unfolding fc_url
unpack_command arch =
    "curl -fSL '"
    ^ fc_url arch
    ^ "' | tar xz -C '"
    ^ bin_dir
    ^ "' --strip-components=1 && mv '"
    ^ bin_dir
    ^ "/firecracker-v1.11.0-"
    ^ arch
    ^ "' '"
    ^ bin_path
    ^ "'"

unfoldable pub kernel_url : String → String
kernel_url arch =
    "https://s3.amazonaws.com/spec.ccfc.min/firecracker-ci/v1.11/" ^ arch ^ "/vmlinux-6.1.102"

module _ {W : Type 0} (files : FileHost W) where
  abbrev unless_exists : String → Exec W Unit → Exec W Unit
  unless_exists path m w = if files.exists path w then (ok tt, w) else m w

  unfoldable pub download_binary : Exec W Unit
  download_binary = do
    arch ← lift (known_arch "Unsupported architecture for Firecracker: " files.arch)
    run_or files "Failed to download Firecracker" (other "Failed to download Firecracker binary")
        ("sh" ∷ "-c" ∷ unpack_command arch ∷ [])
    made_executable ← files.run ("chmod" ∷ "+x" ∷ bin_path ∷ [])
    pure tt

  unfoldable pub download_kernel : Exec W Unit
  download_kernel = do
    arch ← lift (known_arch "Unsupported architecture: " files.arch)
    run_or files "Failed to download kernel" (other "Failed to download Firecracker kernel")
        ("curl" ∷ "-fSL" ∷ "-o" ∷ kernel_path ∷ kernel_url arch ∷ [])

  unfoldable pub download_assets : Exec W (String × String)
  download_assets = do
    files.create_dir_all bin_dir
    files.create_dir_all (firecracker_dir // "kernels")
    unless_exists bin_path download_binary
    unless_exists kernel_path download_kernel
    pure (bin_path, kernel_path)

  unfoldable pub ensure_assets : Exec W (String × String)
  ensure_assets w =
      if files.exists bin_path w && files.exists kernel_path w
      then (ok (bin_path, kernel_path), w)
      else download_assets w
