-- ===== src/Http/Mimetypes/Fourth.antt =====
-- src/Http.cpp: a part of `known_mimetypes`.
use frnetlib.Base.{List, [], ◌∷◌, Bytes, codes}

abbrev pub fourth_mimetypes : List (Bytes × Bytes)
fourth_mimetypes =
    (codes ".msty", codes "application/vnd.muvee.style")
    ∷ (codes ".mxml", codes "application/xv+xml")
    ∷ (codes ".ngdat", codes "application/vnd.nokia.n-gage.data")
    ∷ (codes ".n-gage", codes "application/vnd.nokia.n-gage.symbian.install")
    ∷ (codes ".ncx", codes "application/x-dtbncx+xml")
    ∷ (codes ".nc", codes "application/x-netcdf")
    ∷ (codes ".nlu", codes "application/vnd.neurolanguage.nlu")
    ∷ (codes ".dna", codes "application/vnd.dna")
    ∷ (codes ".nnd", codes "application/vnd.noblenet-directory")
    ∷ (codes ".nns", codes "application/vnd.noblenet-sealer")
    ∷ (codes ".nnw", codes "application/vnd.noblenet-web")
    ∷ (codes ".rpst", codes "application/vnd.nokia.radio-preset")
    ∷ (codes ".rpss", codes "application/vnd.nokia.radio-presets")
    ∷ (codes ".n3", codes "text/n3")
    ∷ (codes ".edm", codes "application/vnd.novadigm.edm")
    ∷ (codes ".edx", codes "application/vnd.novadigm.edx")
    ∷ (codes ".ext", codes "application/vnd.novadigm.ext")
    ∷ (codes ".gph", codes "application/vnd.flographit")
    ∷ (codes ".ecelp4800", codes "audio/vnd.nuera.ecelp4800")
    ∷ (codes ".ecelp7470", codes "audio/vnd.nuera.ecelp7470")
    ∷ (codes ".ecelp9600", codes "audio/vnd.nuera.ecelp9600")
    ∷ (codes ".oda", codes "application/oda")
    ∷ (codes ".ogx", codes "application/ogg")
    ∷ (codes ".oga", codes "audio/ogg")
    ∷ (codes ".ogv", codes "video/ogg")
    ∷ (codes ".dd2", codes "application/vnd.oma.dd2+xml")
    ∷ (codes ".oth", codes "application/vnd.oasis.opendocument.text-web")
    ∷ (codes ".opf", codes "application/oebps-package+xml")
    ∷ (codes ".qbo", codes "application/vnd.intu.qbo")
    ∷ (codes ".oxt", codes "application/vnd.openofficeorg.extension")
    ∷ (codes ".osf", codes "application/vnd.yamaha.openscoreformat")
    ∷ (codes ".weba", codes "audio/webm")
    ∷ (codes ".webm", codes "video/webm")
    ∷ (codes ".odc", codes "application/vnd.oasis.opendocument.chart")
    ∷ (codes ".otc", codes "application/vnd.oasis.opendocument.chart-template")
    ∷ (codes ".odb", codes "application/vnd.oasis.opendocument.database")
    ∷ (codes ".odf", codes "application/vnd.oasis.opendocument.formula")
    ∷ (codes ".odft", codes "application/vnd.oasis.opendocument.formula-template")
    ∷ (codes ".odg", codes "application/vnd.oasis.opendocument.graphics")
    ∷ (codes ".otg", codes "application/vnd.oasis.opendocument.graphics-template")
    ∷ (codes ".odi", codes "application/vnd.oasis.opendocument.image")
    ∷ (codes ".oti", codes "application/vnd.oasis.opendocument.image-template")
    ∷ (codes ".odp", codes "application/vnd.oasis.opendocument.presentation")
    ∷ (codes ".otp", codes "application/vnd.oasis.opendocument.presentation-template")
    ∷ (codes ".ods", codes "application/vnd.oasis.opendocument.spreadsheet")
    ∷ (codes ".ots", codes "application/vnd.oasis.opendocument.spreadsheet-template")
    ∷ (codes ".odt", codes "application/vnd.oasis.opendocument.text")
    ∷ (codes ".odm", codes "application/vnd.oasis.opendocument.text-master")
    ∷ (codes ".ott", codes "application/vnd.oasis.opendocument.text-template")
    ∷ (codes ".ktx", codes "image/ktx")
    ∷ (codes ".sxc", codes "application/vnd.sun.xml.calc")
    ∷ (codes ".stc", codes "application/vnd.sun.xml.calc.template")
    ∷ (codes ".sxd", codes "application/vnd.sun.xml.draw")
    ∷ (codes ".std", codes "application/vnd.sun.xml.draw.template")
    ∷ (codes ".sxi", codes "application/vnd.sun.xml.impress")
    ∷ (codes ".sti", codes "application/vnd.sun.xml.impress.template")
    ∷ (codes ".sxm", codes "application/vnd.sun.xml.math")
    ∷ (codes ".sxw", codes "application/vnd.sun.xml.writer")
    ∷ (codes ".sxg", codes "application/vnd.sun.xml.writer.global")
    ∷ (codes ".stw", codes "application/vnd.sun.xml.writer.template")
    ∷ (codes ".otf", codes "application/x-font-otf")
    ∷ (codes ".osfpvg", codes "application/vnd.yamaha.openscoreformat.osfpvg+xml")
    ∷ (codes ".dp", codes "application/vnd.osgi.dp")
    ∷ (codes ".pdb", codes "application/vnd.palm")
    ∷ (codes ".p", codes "text/x-pascal")
    ∷ (codes ".paw", codes "application/vnd.pawaafile")
    ∷ (codes ".pclxl", codes "application/vnd.hp-pclxl")
    ∷ (codes ".efif", codes "application/vnd.picsel")
    ∷ (codes ".pcx", codes "image/x-pcx")
    ∷ (codes ".psd", codes "image/vnd.adobe.photoshop")
    ∷ (codes ".prf", codes "application/pics-rules")
    ∷ (codes ".pic", codes "image/x-pict")
    ∷ (codes ".chat", codes "application/x-chat")
    ∷ (codes ".p10", codes "application/pkcs10")
    ∷ (codes ".p12", codes "application/x-pkcs12")
    ∷ (codes ".p7m", codes "application/pkcs7-mime")
    ∷ (codes ".p7s", codes "application/pkcs7-signature")
    ∷ (codes ".p7r", codes "application/x-pkcs7-certreqresp")
    ∷ (codes ".p7b", codes "application/x-pkcs7-certificates")
    ∷ (codes ".p8", codes "application/pkcs8")
    ∷ (codes ".plf", codes "application/vnd.pocketlearn")
    ∷ (codes ".pnm", codes "image/x-portable-anymap")
    ∷ (codes ".pbm", codes "image/x-portable-bitmap")
    ∷ (codes ".pcf", codes "application/x-font-pcf")
    ∷ (codes ".pfr", codes "application/font-tdpfr")
    ∷ (codes ".pgn", codes "application/x-chess-pgn")
    ∷ (codes ".pgm", codes "image/x-portable-graymap")
    ∷ (codes ".png", codes "image/png")
    ∷ (codes ".png", codes "image/x-citrix-png")
    ∷ (codes ".png", codes "image/x-png")
    ∷ (codes ".ppm", codes "image/x-portable-pixmap")
    ∷ (codes ".pskcxml", codes "application/pskc+xml")
    ∷ (codes ".pml", codes "application/vnd.ctc-posml")
    ∷ (codes ".ai", codes "application/postscript")
    ∷ (codes ".pfa", codes "application/x-font-type1")
    ∷ (codes ".pbd", codes "application/vnd.powerbuilder6")
    ∷ (codes ".pgp", codes "application/pgp-encrypted")
    ∷ (codes ".pgp", codes "application/pgp-signature")
    ∷ (codes ".box", codes "application/vnd.previewsystems.box")
    ∷ (codes ".ptid", codes "application/vnd.pvi.ptid1")
    ∷ (codes ".pls", codes "application/pls+xml")
    ∷ (codes ".str", codes "application/vnd.pg.format")
    ∷ (codes ".ei6", codes "application/vnd.pg.osasli")
    ∷ (codes ".dsc", codes "text/prs.lines.tag")
    ∷ (codes ".psf", codes "application/x-font-linux-psf")
    ∷ (codes ".qps", codes "application/vnd.publishare-delta-tree")
    ∷ (codes ".wg", codes "application/vnd.pmi.widget")
    ∷ (codes ".qxd", codes "application/vnd.quark.quarkxpress")
    ∷ (codes ".esf", codes "application/vnd.epson.esf")
    ∷ (codes ".msf", codes "application/vnd.epson.msf")
    ∷ (codes ".ssf", codes "application/vnd.epson.ssf")
    ∷ (codes ".qam", codes "application/vnd.epson.quickanime")
    ∷ (codes ".qfx", codes "application/vnd.intu.qfx")
    ∷ (codes ".qt", codes "video/quicktime")
    ∷ (codes ".rar", codes "application/x-rar-compressed")
    ∷ (codes ".ram", codes "audio/x-pn-realaudio")
    ∷ (codes ".rmp", codes "audio/x-pn-realaudio-plugin")
    ∷ (codes ".rsd", codes "application/rsd+xml")
    ∷ (codes ".rm", codes "application/vnd.rn-realmedia")
    ∷ (codes ".bed", codes "application/vnd.realvnc.bed")
    ∷ (codes ".mxl", codes "application/vnd.recordare.musicxml")
    ∷ (codes ".musicxml", codes "application/vnd.recordare.musicxml+xml")
    ∷ (codes ".rnc", codes "application/relax-ng-compact-syntax")
    ∷ (codes ".rdz", codes "application/vnd.data-vision.rdz")
    ∷ (codes ".rdf", codes "application/rdf+xml")
    ∷ (codes ".rp9", codes "application/vnd.cloanto.rp9")
    ∷ (codes ".jisp", codes "application/vnd.jisp")
    ∷ (codes ".rtf", codes "application/rtf")
    ∷ (codes ".rtx", codes "text/richtext")
    ∷ (codes ".link66", codes "application/vnd.route66.link66+xml")
    ∷ (codes ".rss, .xml", codes "application/rss+xml")
    ∷ (codes ".shf", codes "application/shf+xml")
    ∷ (codes ".st", codes "application/vnd.sailingtracker.track")
    ∷ (codes ".svg", codes "image/svg+xml")
    ∷ (codes ".sus", codes "application/vnd.sus-calendar")
    ∷ (codes ".sru", codes "application/sru+xml")
    ∷ (codes ".setpay", codes "application/set-payment-initiation")
    ∷ (codes ".setreg", codes "application/set-registration-initiation")
    ∷ []
