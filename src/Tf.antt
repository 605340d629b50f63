-- ===== src/Tf.antt =====
-- src/tf.c: the TF card's file system.
use alonzo_bootloader_zephyr.Base.{Bool, ⊤, Exec, is_ok}
use alonzo_bootloader_zephyr.Board.{Board, FilePath, Platform, call, mounted, unmounted, stated}

module _ {T : Type 0} (p : Platform) where
  unfoldable pub tf_mount : Exec (Board T) ⊤
  tf_mount = call p.mount (λ r. mounted (is_ok r))

  unfoldable pub tf_unmount : Exec (Board T) ⊤
  tf_unmount = call p.unmount (λ r. unmounted (is_ok r))

  -- The size is not modelled: the callers only print it.
  unfoldable pub tf_file_exists : FilePath → Board T → Bool × Board T
  tf_file_exists path b =
      let (r, b') = call (λ t. p.stat t path) (λ _. stated path) b in (is_ok r, b')
