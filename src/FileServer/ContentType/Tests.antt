-- ===== src/FileServer/ContentType/Tests.antt =====
-- Names of files, and a name that has the extension twice.
use equic.Prelude.{◌≡◌, ◌↔◌, refl, arith, true, Bytes, codes}
use equic.FileServer.ContentType.{ends_with, select_content_type, IsExtended, ends_with_iff}

png : select_content_type (codes "/www/a.png") ≡ codes "image/png"
unfolding select_content_type
png = refl

twice : select_content_type (codes "/www/a.html.html") ≡ codes "application/octet-stream"
unfolding select_content_type
twice = refl

ends_with_iff_example :
    (ends_with (codes "/www/a.css") (codes ".css") ≡ true)
    ↔ ((base : Bytes) × IsExtended (codes ".css") (codes "/www/a.css") base)
ends_with_iff_example = ends_with_iff b'.' (codes "css") (omega arith) (codes "/www/a.css")
