-- ===== src/Stream/Null/Tests.antt =====
-- A copy of 3 bytes to a stream that only counts them.
use ckcore.Base.{◌≡◌, refl, true, returns, load}
use ckcore.Stream.Copy.{copy_loop, copy}
use ckcore.Stream.Copy.Tests.{three}
use ckcore.MemoryStream.In
use ckcore.MemoryStream.In.{memory}
use ckcore.Stream.Null.{create, null_stream, write}

counts_three :
    copy memory null_stream 2 true three create
    ≡ returns (true, record three { pos = 3 }, record { total = 3 })
unfolding copy copy_loop memory In.read In.end load null_stream write create
counts_three = refl
