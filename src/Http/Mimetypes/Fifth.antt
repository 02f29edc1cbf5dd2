-- ===== src/Http/Mimetypes/Fifth.antt =====
-- src/Http.cpp: a part of `known_mimetypes`.
use frnetlib.Base.{List, [], ◌∷◌, Bytes, codes}

abbrev pub fifth_mimetypes : List (Bytes × Bytes)
fifth_mimetypes =
    (codes ".sema", codes "application/vnd.sema")
    ∷ (codes ".semd", codes "application/vnd.semd")
    ∷ (codes ".semf", codes "application/vnd.semf")
    ∷ (codes ".see", codes "application/vnd.seemail")
    ∷ (codes ".snf", codes "application/x-font-snf")
    ∷ (codes ".spq", codes "application/scvp-vp-request")
    ∷ (codes ".spp", codes "application/scvp-vp-response")
    ∷ (codes ".scq", codes "application/scvp-cv-request")
    ∷ (codes ".scs", codes "application/scvp-cv-response")
    ∷ (codes ".sdp", codes "application/sdp")
    ∷ (codes ".etx", codes "text/x-setext")
    ∷ (codes ".movie", codes "video/x-sgi-movie")
    ∷ (codes ".ifm", codes "application/vnd.shana.informed.formdata")
    ∷ (codes ".itp", codes "application/vnd.shana.informed.formtemplate")
    ∷ (codes ".iif", codes "application/vnd.shana.informed.interchange")
    ∷ (codes ".ipk", codes "application/vnd.shana.informed.package")
    ∷ (codes ".tfi", codes "application/thraud+xml")
    ∷ (codes ".shar", codes "application/x-shar")
    ∷ (codes ".rgb", codes "image/x-rgb")
    ∷ (codes ".slt", codes "application/vnd.epson.salt")
    ∷ (codes ".aso", codes "application/vnd.accpac.simply.aso")
    ∷ (codes ".imp", codes "application/vnd.accpac.simply.imp")
    ∷ (codes ".twd", codes "application/vnd.simtech-mindmapper")
    ∷ (codes ".csp", codes "application/vnd.commonspace")
    ∷ (codes ".saf", codes "application/vnd.yamaha.smaf-audio")
    ∷ (codes ".mmf", codes "application/vnd.smaf")
    ∷ (codes ".spf", codes "application/vnd.yamaha.smaf-phrase")
    ∷ (codes ".teacher", codes "application/vnd.smart.teacher")
    ∷ (codes ".svd", codes "application/vnd.svd")
    ∷ (codes ".rq", codes "application/sparql-query")
    ∷ (codes ".srx", codes "application/sparql-results+xml")
    ∷ (codes ".gram", codes "application/srgs")
    ∷ (codes ".grxml", codes "application/srgs+xml")
    ∷ (codes ".ssml", codes "application/ssml+xml")
    ∷ (codes ".skp", codes "application/vnd.koan")
    ∷ (codes ".sgml", codes "text/sgml")
    ∷ (codes ".sdc", codes "application/vnd.stardivision.calc")
    ∷ (codes ".sda", codes "application/vnd.stardivision.draw")
    ∷ (codes ".sdd", codes "application/vnd.stardivision.impress")
    ∷ (codes ".smf", codes "application/vnd.stardivision.math")
    ∷ (codes ".sdw", codes "application/vnd.stardivision.writer")
    ∷ (codes ".sgl", codes "application/vnd.stardivision.writer-global")
    ∷ (codes ".sm", codes "application/vnd.stepmania.stepchart")
    ∷ (codes ".sit", codes "application/x-stuffit")
    ∷ (codes ".sitx", codes "application/x-stuffitx")
    ∷ (codes ".sdkm", codes "application/vnd.solent.sdkm+xml")
    ∷ (codes ".xo", codes "application/vnd.olpc-sugar")
    ∷ (codes ".au", codes "audio/basic")
    ∷ (codes ".wqd", codes "application/vnd.wqd")
    ∷ (codes ".sis", codes "application/vnd.symbian.install")
    ∷ (codes ".smi", codes "application/smil+xml")
    ∷ (codes ".xsm", codes "application/vnd.syncml+xml")
    ∷ (codes ".bdm", codes "application/vnd.syncml.dm+wbxml")
    ∷ (codes ".xdm", codes "application/vnd.syncml.dm+xml")
    ∷ (codes ".sv4cpio", codes "application/x-sv4cpio")
    ∷ (codes ".sv4crc", codes "application/x-sv4crc")
    ∷ (codes ".sbml", codes "application/sbml+xml")
    ∷ (codes ".tsv", codes "text/tab-separated-values")
    ∷ (codes ".tiff", codes "image/tiff")
    ∷ (codes ".tao", codes "application/vnd.tao.intent-module-archive")
    ∷ (codes ".tar", codes "application/x-tar")
    ∷ (codes ".tcl", codes "application/x-tcl")
    ∷ (codes ".tex", codes "application/x-tex")
    ∷ (codes ".tfm", codes "application/x-tex-tfm")
    ∷ (codes ".tei", codes "application/tei+xml")
    ∷ (codes ".txt", codes "text/plain")
    ∷ (codes ".dxp", codes "application/vnd.spotfire.dxp")
    ∷ (codes ".sfs", codes "application/vnd.spotfire.sfs")
    ∷ (codes ".tsd", codes "application/timestamped-data")
    ∷ (codes ".tpt", codes "application/vnd.trid.tpt")
    ∷ (codes ".mxs", codes "application/vnd.triscape.mxs")
    ∷ (codes ".t", codes "text/troff")
    ∷ (codes ".tra", codes "application/vnd.trueapp")
    ∷ (codes ".ttf", codes "application/x-font-ttf")
    ∷ (codes ".ttl", codes "text/turtle")
    ∷ (codes ".umj", codes "application/vnd.umajin")
    ∷ (codes ".uoml", codes "application/vnd.uoml+xml")
    ∷ (codes ".unityweb", codes "application/vnd.unity")
    ∷ (codes ".ufd", codes "application/vnd.ufdl")
    ∷ (codes ".uri", codes "text/uri-list")
    ∷ (codes ".utz", codes "application/vnd.uiq.theme")
    ∷ (codes ".ustar", codes "application/x-ustar")
    ∷ (codes ".uu", codes "text/x-uuencode")
    ∷ (codes ".vcs", codes "text/x-vcalendar")
    ∷ (codes ".vcf", codes "text/x-vcard")
    ∷ (codes ".vcd", codes "application/x-cdlink")
    ∷ (codes ".vsf", codes "application/vnd.vsf")
    ∷ (codes ".wrl", codes "model/vrml")
    ∷ (codes ".vcx", codes "application/vnd.vcx")
    ∷ (codes ".mts", codes "model/vnd.mts")
    ∷ (codes ".vtu", codes "model/vnd.vtu")
    ∷ (codes ".vis", codes "application/vnd.visionary")
    ∷ (codes ".viv", codes "video/vnd.vivo")
    ∷ (codes ".ccxml", codes "application/ccxml+xml,")
    ∷ (codes ".vxml", codes "application/voicexml+xml")
    ∷ (codes ".src", codes "application/x-wais-source")
    ∷ (codes ".wbxml", codes "application/vnd.wap.wbxml")
    ∷ (codes ".wbmp", codes "image/vnd.wap.wbmp")
    ∷ (codes ".wav", codes "audio/x-wav")
    ∷ (codes ".davmount", codes "application/davmount+xml")
    ∷ (codes ".woff", codes "application/x-font-woff")
    ∷ (codes ".wspolicy", codes "application/wspolicy+xml")
    ∷ (codes ".webp", codes "image/webp")
    ∷ (codes ".wtb", codes "application/vnd.webturbo")
    ∷ (codes ".wgt", codes "application/widget")
    ∷ (codes ".hlp", codes "application/winhlp")
    ∷ (codes ".wml", codes "text/vnd.wap.wml")
    ∷ (codes ".wmls", codes "text/vnd.wap.wmlscript")
    ∷ (codes ".wmlsc", codes "application/vnd.wap.wmlscriptc")
    ∷ (codes ".wpd", codes "application/vnd.wordperfect")
    ∷ (codes ".stf", codes "application/vnd.wt.stf")
    ∷ (codes ".wsdl", codes "application/wsdl+xml")
    ∷ (codes ".xbm", codes "image/x-xbitmap")
    ∷ (codes ".xpm", codes "image/x-xpixmap")
    ∷ (codes ".xwd", codes "image/x-xwindowdump")
    ∷ (codes ".der", codes "application/x-x509-ca-cert")
    ∷ (codes ".fig", codes "application/x-xfig")
    ∷ (codes ".xhtml", codes "application/xhtml+xml")
    ∷ (codes ".xml", codes "application/xml")
    ∷ (codes ".xdf", codes "application/xcap-diff+xml")
    ∷ (codes ".xenc", codes "application/xenc+xml")
    ∷ (codes ".xer", codes "application/patch-ops-error+xml")
    ∷ (codes ".rl", codes "application/resource-lists+xml")
    ∷ (codes ".rs", codes "application/rls-services+xml")
    ∷ (codes ".rld", codes "application/resource-lists-diff+xml")
    ∷ (codes ".xslt", codes "application/xslt+xml")
    ∷ (codes ".xop", codes "application/xop+xml")
    ∷ (codes ".xpi", codes "application/x-xpinstall")
    ∷ (codes ".xspf", codes "application/xspf+xml")
    ∷ (codes ".xul", codes "application/vnd.mozilla.xul+xml")
    ∷ (codes ".xyz", codes "chemical/x-xyz")
    ∷ (codes ".yaml", codes "text/yaml")
    ∷ (codes ".yang", codes "application/yang")
    ∷ (codes ".yin", codes "application/yin+xml")
    ∷ (codes ".zir", codes "application/vnd.zul")
    ∷ (codes ".zip", codes "application/zip")
    ∷ (codes ".zmm", codes "application/vnd.handheld-entertainment+xml")
    ∷ (codes ".zaz", codes "application/vnd.zzazz.deck+xml")
    ∷ []
