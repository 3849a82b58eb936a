-- ===== src/Backup/Compression.antt =====
-- backup/compression.go, compression_none.go, compression_gzip.go and compression_zstd.go.
use front_basicrum_go.Base.{Bytes, ◌++◌, ◌≡◌, Bool, refl, eqb, if◌then◌else◌, codes}

-- The strings of the configuration are kept; an unknown one takes the default branch.
abbrev pub Compression : Type 0
Compression = Bytes

abbrev pub CompressionLevel : Type 0
CompressionLevel = Bytes

abbrev pub none_compression : Compression
none_compression = codes "NONE"

abbrev pub gzip_compression : Compression
gzip_compression = codes "GZIP"

abbrev pub z_standard_compression : Compression
z_standard_compression = codes "Zstandard"

abbrev pub no_compression_level : CompressionLevel
no_compression_level = codes "No"

abbrev pub best_speed_compression_level : CompressionLevel
best_speed_compression_level = codes "BestSpeed"

abbrev pub default_compression_level : CompressionLevel
default_compression_level = codes "Default"

abbrev pub best_compression_compression_level : CompressionLevel
best_compression_compression_level = codes "BestCompression"

abbrev pub huffman_only_compression_level : CompressionLevel
huffman_only_compression_level = codes "HuffmanOnly"

-- The types that implement CompressionWriterFactory.
pub data Factory : Type 0 where
  none_factory : Factory
  gzip_factory : CompressionLevel → Factory
  zstd_factory : CompressionLevel → Factory

unfoldable pub new_compression_writer_factory : Bool → Compression → CompressionLevel → Factory
new_compression_writer_factory enabled compression level =
    if enabled
    then (if eqb compression gzip_compression
        then gzip_factory level
        else if eqb compression z_standard_compression
        then zstd_factory level
        else none_factory)
    else none_factory

unfoldable pub filename : Factory → Bytes → Bytes
filename none_factory original = original
filename (gzip_factory level) original = original ++ codes ".gz"
filename (zstd_factory level) original = original ++ codes ".zst"

-- The levels of compress/gzip.
pub data GzipLevel : Type 0 where
  no_compression best_speed best_compression default_compression huffman_only : GzipLevel

-- The levels of github.com/klauspost/compress/zstd that the code names.
pub data ZstdLevel : Type 0 where
  speed_fastest speed_default speed_better_compression speed_best_compression : ZstdLevel

unfoldable pub gzip_level : CompressionLevel → GzipLevel
gzip_level level =
    if eqb level no_compression_level
    then no_compression
    else if eqb level huffman_only_compression_level
    then huffman_only
    else if eqb level best_speed_compression_level
    then best_speed
    else if eqb level best_compression_compression_level
    then best_compression
    else default_compression

unfoldable pub zstd_level : CompressionLevel → ZstdLevel
zstd_level level =
    if eqb level no_compression_level
    then speed_fastest
    else if eqb level best_speed_compression_level
    then speed_better_compression
    else if eqb level best_compression_compression_level
    then speed_best_compression
    else speed_default

-- What the writers put on disk for a text once they are closed, and how it is read back.
pub record Codec : Type 0 where
  pub gzip : GzipLevel → Bytes → Bytes
  pub zstd : ZstdLevel → Bytes → Bytes
  pub gunzip : Bytes → Bytes
  pub unzstd : Bytes → Bytes
  pub gunzip-gzip : (l : GzipLevel) (s : Bytes) → gunzip (gzip l s) ≡ s
  pub unzstd-zstd : (l : ZstdLevel) (s : Bytes) → unzstd (zstd l s) ≡ s

module _ (codec : Codec) where
  -- The bytes that the writer of `Create` leaves in the file.
  unfoldable pub compress : Factory → Bytes → Bytes
  compress none_factory s = s
  compress (gzip_factory level) s = codec.gzip (gzip_level level) s
  compress (zstd_factory level) s = codec.zstd (zstd_level level) s

  -- The reader for a file of the factory.
  unfoldable pub decompress : Factory → Bytes → Bytes
  decompress none_factory s = s
  decompress (gzip_factory level) s = codec.gunzip s
  decompress (zstd_factory level) s = codec.unzstd s

  pub decompress-compress : (f : Factory) (s : Bytes) → decompress f (compress f s) ≡ s
  unfolding decompress compress
  decompress-compress none_factory s = refl
  decompress-compress (gzip_factory level) s = codec.gunzip-gzip (gzip_level level) s
  decompress-compress (zstd_factory level) s = codec.unzstd-zstd (zstd_level level) s
